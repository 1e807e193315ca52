-- ===== src/Rpc/Channel/Ending.antt =====
-- How `callBack` of rpc_channel.cc ends a call, with an answer or with an error.
use my_rocket.Base.{
  ℕ, ◌+◌, ◌≡◌, inl, inr, refl, ap, ◌∙◌, Bool, true, false, List, if◌then◌else◌, ==_self, ℤ, Option,
  none, some, Text, Outcome, ok, fault, ◌>>=◌, or_fault, Bool-cases, not,
}
use my_rocket.Tcp.NetAddr.{Inet}
use my_rocket.Coder.TinyPb.{TinyPbProtocol}
use my_rocket.Rpc.Dispatcher.{codes}
use my_rocket.Rpc.ErrorCode.{error_failed_serialize}
use my_rocket.Rpc.Controller.{set_error, set_finished, start_cancel}
use my_rocket.Rpc.Channel.{Call, change, call_back, fail, response_done, is_zero}
use my_rocket.Rpc.Channel.Progress.{IsFinished}

pub call_back_finished :
    (p : ℕ) (s : Call) → s.channel.controller ≡ some p → IsFinished p s → call_back s ≡ ok s
unfolding call_back
call_back_finished p s own f = simp (own, f)

-- The controller after `StartCancel` and `SetError`.
pub cancelled :
    (p : ℕ) (code : ℤ) (info : Text) (s : Call)
    → let t = change p (set_error code info) (change p start_cancel s) in
      IsFinished p t × ((t.controllers p).error_code ≡ code)
unfolding set_error start_cancel set_finished
cancelled p code info s = rw ==_self (refl, refl)

pub there :
    {A : Type 0} {o : Option A} {a : A} (f : A → Outcome Call)
    → o ≡ some a
    → (or_fault o >>= f) ≡ f a
there f e = ap (λ o. or_fault o >>= f) e

pub fail_null :
    (p : ℕ) (code : ℤ) (info : Text) (s : Call)
    → s.channel.controller ≡ none
    → fail p code info s ≡ fault
unfolding call_back
fail_null p code info s null = simp null

-- The closure has run and the controller is finished.
abbrev pub ran : ℕ → Call → Call
ran p s = change p (set_finished true) (record s { runs = s.runs + 1 })

call_back_waiting :
    (p : ℕ) (s : Call)
    → s.channel.controller ≡ some p
    → s.channel.has_closure ≡ true
    → (s.controllers p).is_finished ≡ false
    → (call_back s ≡ ok (ran p s))
      × IsFinished p (ran p s)
      × (((ran p s).controllers p).error_code ≡ (s.controllers p).error_code)
unfolding call_back set_finished
call_back_waiting p s own closure waiting =
    (simp (own, waiting, closure), rw ==_self refl, rw ==_self refl)

-- The same behind `SetError`.
pub fail_waiting :
    (p : ℕ) (code : ℤ) (info : Text) (s : Call)
    → s.channel.controller ≡ some p
    → s.channel.has_closure ≡ true
    → (s.controllers p).is_finished ≡ false
    → let t = ran p (change p (set_error code info) s) in
      (fail p code info s ≡ ok t) × IsFinished p t × ((t.controllers p).error_code ≡ code)
unfolding set_error
fail_waiting p code info s own closure waiting =
    let (runs, done, same) =
      call_back_waiting p (change p (set_error code info) s) own closure (rw ==_self waiting) in
    (runs, done, same ∙ rw ==_self refl)

module _ (net : Inet) (strerror : ℕ → Text) (parse_response : List ℕ → Bool) where
  -- The answer to a call that still waits ends it: the closure runs once more and the controller is
  -- finished, with an error exactly in two cases: the answer's data cannot be parsed, or it can and
  -- the answer has an error code, which is then the controller's.
  pub response_done_lem :
      (p : ℕ) (m : TinyPbProtocol) (s : Call)
      → s.channel.controller ≡ some p
      → s.channel.has_closure ≡ true
      → (s.controllers p).is_finished ≡ false
      → (t : Call) × (response_done net strerror parse_response m s ≡ ok t)
        × (t.runs ≡ s.runs + 1)
        × IsFinished p t
        × ((t.controllers p).error_code ≡ (
            if not (parse_response m.pb_data)
            then error_failed_serialize
            else if is_zero m.err_code
            then (s.controllers p).error_code
            else m.err_code))
  unfolding response_done
  response_done_lem p m s own closure waiting = elim (Bool-cases (parse_response m.pb_data)) [
    | inl y ↦ elim (Bool-cases (is_zero m.err_code)) [
      | inl z ↦
          let (runs, done, code) = call_back_waiting p s own closure waiting in
          (ran p s, there _ own ∙ rw (y, z) runs, refl, done, rw (y, z) code)
      | inr z ↦
          let (runs, done, code) = fail_waiting p m.err_code m.err_info s own closure waiting in
          (
            ran p (change p (set_error m.err_code m.err_info) s),
            there _ own ∙ rw (y, z) runs,
            refl,
            done,
            rw (y, z) code,
          )
    ]
    | inr y ↦
        let (runs, done, code) =
          fail_waiting p error_failed_serialize (codes "serialize error") s own closure waiting in
        (
          ran p (change p (set_error error_failed_serialize (codes "serialize error")) s),
          there _ own ∙ rw y runs,
          refl,
          done,
          rw y code,
        )
  ]

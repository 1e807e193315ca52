-- ===== src/Rpc/Dispatcher/Routing.antt =====
-- Which requests of rpc_dispatcher.cc reach a service, and which are answered.
use my_rocket.Base.{
  ℕ, ◌+◌, ◌≡◌, ◌⊎◌, inl, inr, refl, sym, ap, ◌∙◌, List, [], ◌∷◌, ◌++◌, length, drop, pos, none,
  some, Text, find_first_of, arith, All, Without, find_first_of-append, find_first_of_cases,
  take-append, drop-append, append_assoc, length-append, same, same_iff, same_self, Option-cases,
  Bool-cases,
}
use my_rocket.Base.Assoc.{lookup, assign, lookup-assign}
use my_rocket.Coder.TinyPb.{TinyPbProtocol}
use my_rocket.Rpc.ErrorCode.{error_parse_service_name, error_service_not_found}
use my_rocket.Rpc.Dispatcher.{
  Service, RunTime, Ends, ServiceMap, set_tiny_pb_error, parse_service_full_name, register_service,
  finish, controller_for, dispatch,
}

-- The first dot cuts a full name into service and method.
parse-append : (s m : Text) → Without b'.' s → parse_service_full_name (s ++ b'.' ∷ m) ≡ some (s, m)
parse-append [] m w = unfold parse_service_full_name find_first_of in refl
parse-append (c ∷ s) m w =
    let t : Text = c ∷ s in
    let cut : drop (length t + 1) (t ++ b'.' ∷ m) ≡ m =
      ap (drop (length t + 1)) (sym (append_assoc t (b'.' ∷ []) m))
      ∙ drop-append (length t + 1) (t ++ b'.' ∷ []) m
          (omega (arith, length-append {0} {A = ℕ} t (b'.' ∷ []))) in
    unfold parse_service_full_name in
    rw
      (
        find_first_of-append b'.' t m w,
        parse_service_full_name,
        take-append (length t) t (b'.' ∷ m) refl,
        cut,
      )
      refl

parse_cases :
    (t : Text)
    → (parse_service_full_name t ≡ none)
      ⊎ ((s : Text) × (m : Text) × Without b'.' s × (parse_service_full_name t ≡ some (s, m)))
parse_cases t = elim (find_first_of_cases b'.' t) [
  | inl (e, _) ↦ inl (no_dot t e)
  | inr (s, m, e, w, _) ↦ inr (s, m, w, rw e (parse-append s m w))
]
  where
    no_dot : (t : Text) → find_first_of b'.' t ≡ none → parse_service_full_name t ≡ none
    no_dot [] e = unfold parse_service_full_name in refl
    no_dot (c ∷ s) e = unfold parse_service_full_name in rw (e, parse_service_full_name) refl

module _ {Method Req Rsp : Type 0} where
  -- A request to a registered service whose name has no dot, for a method that it has and with data
  -- that it parses, is answered once: with the request's id and method name, the serialized response
  -- and error code 0; the thread remembers the request.
  pub dispatch-register_service :
      (service : Service Method Req Rsp) (services : ServiceMap Method Req Rsp) (ends : Ends)
      (req response : TinyPbProtocol) (run_time : RunTime) (name : Text) (method : Method)
      (msg : Req) (answer : Rsp) (bytes : List ℕ)
      → Without b'.' service.full_name
      → req.method_name ≡ service.full_name ++ b'.' ∷ name
      → service.find_method name ≡ some method
      → service.parse_request method req.pb_data ≡ some msg
      → service.call_method method (controller_for ends req.msg_id) msg ≡ some answer
      → service.serialize answer ≡ some bytes
      → let rsp = record response {
        msg_id = req.msg_id;
        method_name = req.method_name;
        pb_data = bytes;
        err_code = pos 0;
        err_info = [];
      } in
        dispatch (register_service service services) ends req response run_time ≡ record {
          response = rsp;
          run_time = record { msgid = req.msg_id; method_name = name };
          replies = (rsp ∷ []) ∷ [];
        }
  unfolding dispatch register_service finish
  dispatch-register_service service services ends req response rt name method msg answer bytes w
        named found parsed called written =
      let key = service.full_name in
      let parts : parse_service_full_name req.method_name ≡ some (key, name) =
        rw named (parse-append key name w) in
      let stored : lookup key (assign key service services) ≡ some service =
        lookup-assign key key service services ∙ rw (same_self key) refl in
      rw (parts, dispatch, stored, found, parsed, called, written, finish) refl

  -- A request is answered: its names lead to a method, its data parses, and the method runs its
  -- closure.
  pub record IsAnswered (services : ServiceMap Method Req Rsp) (ends : Ends) (req : TinyPbProtocol)
      : Type 0 where
    pub service_name : Text
    pub method : Method
    pub name : Text
    pub service : Service Method Req Rsp
    pub msg : Req
    pub answer : Rsp
    pub parts : parse_service_full_name req.method_name ≡ some (service_name, name)
    pub stored : lookup service_name services ≡ some service
    pub found : service.find_method name ≡ some method
    pub parsed : service.parse_request method req.pb_data ≡ some msg
    pub called : service.call_method method (controller_for ends req.msg_id) msg ≡ some answer

  replies-finish :
      (service : Service Method Req Rsp) (answer : Rsp) (rsp : TinyPbProtocol) (rt : RunTime)
      → let d = finish service (some answer) rsp rt in d.replies ≡ (d.response ∷ []) ∷ []
  unfolding finish
  replies-finish service answer rsp rt = elim (Option-cases (service.serialize answer)) [
    | inl e ↦ rw (e, finish) refl
    | inr (bytes, e) ↦ rw (e, finish) refl
  ]

  -- A dispatch hands its response to the connection exactly when the request is answered in this
  -- sense, and then once. So no request that fails before its method runs gets a reply: the error
  -- code that `dispatch` stores for it is never sent.
  pub dispatch_replies :
      (services : ServiceMap Method Req Rsp) (ends : Ends) (req response : TinyPbProtocol)
      (run_time : RunTime)
      → let d = dispatch services ends req response run_time in
        (IsAnswered services ends req × (d.replies ≡ (d.response ∷ []) ∷ []))
        ⊎ ((¬ IsAnswered services ends req) × (d.replies ≡ []))
  unfolding dispatch
  dispatch_replies services ends req response rt = elim (parse_cases req.method_name) [
    | inl e ↦ rw (e, dispatch) (inr ((λ p. cc (p.parts, e)), refl))
    | inr (s, m, _, e) ↦ elim (Option-cases (lookup s services)) [
      | inl e1 ↦ rw (e, dispatch, e1) (inr ((λ p. cc (p.parts, e, p.stored, e1)), refl))
      | inr (service, e1) ↦ elim (Option-cases (service.find_method m)) [
        | inl e2 ↦
            rw (e, dispatch, e1, e2) (inr ((λ p. cc (p.parts, e, p.stored, e1, p.found, e2)), refl))
        | inr (method, e2) ↦ elim (Option-cases (service.parse_request method req.pb_data)) [
          | inl e3 ↦
              rw (e, dispatch, e1, e2, e3)
                (inr ((λ p. cc (p.parts, e, p.stored, e1, p.found, e2, p.parsed, e3)), refl))
          | inr (msg, e3) ↦
              elim (Option-cases
                (service.call_method method (controller_for ends req.msg_id) msg)) [
                  | inl e4 ↦
                      rw (e, dispatch, e1, e2, e3, e4)
                        (inr (
                          (λ p.
                              cc (
                                p.parts, e, p.stored, e1, p.found, e2, p.parsed, e3, p.called, e4,
                              )),
                          unfold finish in refl,
                        ))
                  | inr (answer, e4) ↦
                      rw (e, dispatch, e1, e2, e3, e4)
                        (inl (
                          record {
                            service_name = s;
                            method = method;
                            name = m;
                            service = service;
                            msg = msg;
                            answer = answer;
                            parts = e;
                            stored = e1;
                            found = e2;
                            parsed = e3;
                            called = e4;
                          },
                          replies-finish service answer _ _,
                        ))
                ]
        ]
      ]
    ]
  ]

  lookup_dotted :
      (services : ServiceMap Method Req Rsp) (s : Text)
      → All (λ e. ¬ Without b'.' e.0) services
      → Without b'.' s
      → lookup s services ≡ none
  unfolding lookup
  lookup_dotted [] s h w = refl
  lookup_dotted ((k, v) ∷ services) s h w = elim (Bool-cases (same k s)) [
    | inl e ↦ absurd (h.0 (rw ((same_iff k s).0 e) w))
    | inr e ↦ rw e (lookup_dotted services s h.1 w)
  ]

  -- With every registered name in a package, so with a dot in it, no request is answered: the name is
  -- cut at the first dot and the service is not found.
  pub dispatch_qualified :
      (services : ServiceMap Method Req Rsp) (ends : Ends) (req response : TinyPbProtocol)
      (run_time : RunTime)
      → All (λ e. ¬ Without b'.' e.0) services
      → let d = dispatch services ends req response run_time in
        ((d.response.err_code ≡ error_parse_service_name)
          ⊎ (d.response.err_code ≡ error_service_not_found))
        × (d.replies ≡ [])
  unfolding dispatch
  dispatch_qualified services ends req response rt h = elim (parse_cases req.method_name) [
    | inl e ↦ rw (e, dispatch) (inl (unfold set_tiny_pb_error in refl), refl)
    | inr (s, m, w, e) ↦
        rw (e, dispatch, lookup_dotted services s h w)
          (inr (unfold set_tiny_pb_error in refl), refl)
  ]

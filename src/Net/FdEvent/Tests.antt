-- ===== src/Net/FdEvent/Tests.antt =====
-- Events of rocket/net/fd_event.cc and fd_event_group.cc.
use my_rocket.Base.{List}
use my_rocket.Net.FdEvent.{FdEvent, make_group}

abbrev two_events : List FdEvent
two_events = make_group 2

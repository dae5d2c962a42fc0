-- ===== src/Tests/Server.antt =====
-- The servers at concrete inputs.
use cpplearn.Common.{◌≡◌, refl, Bool, true, false, none, some, [], ◌∷◌, codes, if◌then◌else◌, ◌==◌}
use cpplearn.Server.Poll.{
  PollState, bytes, connreset, PollReport, polling, poll_turn, serve_entry, after_entry,
  store_descriptor, after_store, check_table,
}
use cpplearn.Server.Prefork.{
  Child, Parent, idle, again, Ready, running, turn, take_ready, pass_to, pass_connection,
  collect_ready, after_accept, second_half,
}
use cpplearn.Server.Select.{
  ServerState, input, Report, serving, save_descriptor, store, add_client, fd_clr, serve_client,
  check_entry, after_client, check_clients, check_all, after_add, select_turn,
}
use cpplearn.Server.Prefork.Available.{IsCounted, Runs, turn-Runs}

abbrev child : Bool → Child
child busy = record { child_pipefd = 7; child_busy = busy; child_count = 1 }

abbrev parent : Parent
parent = record { children = child true ∷ child false ∷ []; navail = 1; passed = 0 ∷ [] }

abbrev both_ready : Ready
both_ready = record { listening = true; pipes = again ∷ idle ∷ []; nsel = 2 }

-- The connection goes to the second child, and the first is ready again.
one_turn :
    turn both_ready parent
    ≡ running (record {
      children = child false ∷ record { child_pipefd = 7; child_busy = true; child_count = 2 } ∷ [];
      navail = 1;
      passed = 1 ∷ 0 ∷ [];
    })
unfolding turn take_ready pass_to pass_connection collect_ready after_accept second_half
one_turn = refl

turn-Runs_example : Runs IsCounted (turn both_ready parent)
turn-Runs_example = turn-Runs both_ready parent refl (refl, tt)

-- Three entries, of which the first and the third hold clients; the listening socket is 3.
abbrev table : ServerState
table = record {
  client = some 5 ∷ none ∷ some 4 ∷ [];
  allset = 5 ∷ 4 ∷ 3 ∷ [];
  used = 3;
  maxfd = 5;
  echoed = [];
  closed = [];
}

-- A new client, 6; the client 4 sends two bytes, and 5 closes.
abbrev report : Report
report = record {
  connection = some 6;
  readable = λ fd.
      if fd == 4 then some (input (codes "hi")) else if fd == 5 then some (input []) else none;
  nready = 3;
}

one_select :
    select_turn report table
    ≡ serving (record {
      client = none ∷ some 6 ∷ some 4 ∷ [];
      allset = 6 ∷ 4 ∷ 3 ∷ [];
      used = 3;
      maxfd = 6;
      echoed = (4, codes "hi") ∷ [];
      closed = 5 ∷ [];
    })
unfolding select_turn add_client save_descriptor store after_add check_all check_clients check_entry
    after_client serve_client fd_clr
one_select = refl

-- 5 and 7 are connected; 6 was, and is closed.
abbrev poll_state : PollState
poll_state = record {
  client = some 5 ∷ some 7 ∷ none ∷ [];
  maxi = 2;
  accepted = 7 ∷ 6 ∷ 5 ∷ [];
  echoed = [];
  closed = 6 ∷ [];
}

-- 8 is accepted, 5 sends "a", and 7 resets the connection.
abbrev poll_report : PollReport
poll_report = record {
  connection = some 8;
  revents =
      λ i. if i == 1 then some (bytes (codes "a")) else if i == 2 then some connreset else none;
  nready = 3;
}

one_poll :
    poll_turn poll_report poll_state
    ≡ polling (record {
      client = some 5 ∷ none ∷ some 8 ∷ [];
      maxi = 3;
      accepted = 8 ∷ 7 ∷ 6 ∷ 5 ∷ [];
      echoed = (5, codes "a") ∷ [];
      closed = 7 ∷ 6 ∷ [];
    })
unfolding poll_turn store_descriptor after_store check_table serve_entry after_entry save_descriptor
one_poll = refl

-- ===== src/Tests/Nonblock.antt =====
-- The client with descriptors that do not block, at concrete inputs.
use cpplearn.Common.{◌≡◌, refl, true, false, List, [], ◌∷◌, arith}
use cpplearn.Nonblock.{
  pending, fill, wrote, Client, would_block, gives, Report, returned, start, wait_ready, send_fin,
  stdin_gave, sock_gave, stdout_took, sock_took, from_stdin, from_sock, to_stdout, to_sock,
  and_then, turn, turns,
}
use cpplearn.Nonblock.Copied.{turns-Copied}
use cpplearn.Nonblock.Steps.{IsCopied, Kept}

abbrev quiet : Report
quiet = record {
  stdin_ready = false;
  sock_readable = false;
  sock_writable = false;
  stdout_ready = false;
  stdin_read = would_block;
  sock_read = would_block;
  sock_write = would_block;
  stdout_write = would_block;
}

-- Three bytes are typed and two sent at once; then stdin ends, the third is sent, and FIN. The
-- server answers with two bytes, of which one is shown, and closes the connection.
abbrev session : List Report
session =
    (record quiet { stdin_ready = true; stdin_read = gives (1 ∷ 2 ∷ 3 ∷ []); sock_write = gives 2 })
    ∷ (record quiet {
      stdin_ready = true;
      stdin_read = gives [];
      sock_writable = true;
      sock_write = gives 9;
    })
    ∷ (record quiet {
      sock_readable = true;
      sock_read = gives (7 ∷ 8 ∷ []);
      stdout_write = gives 1;
    })
    ∷ (record quiet { sock_readable = true; sock_read = gives [] })
    ∷ []

-- str_cli returns, and the byte 8 was not written to stdout.
abbrev left_behind : Client
left_behind = record {
  to = record { filled = []; optr = 0 };
  fr = record { filled = 7 ∷ 8 ∷ []; optr = 1 };
  stdineof = true;
  read_stdin = false;
  read_sock = true;
  write_sock = false;
  write_stdout = false;
  typed = 1 ∷ 2 ∷ 3 ∷ [];
  received = 7 ∷ 8 ∷ [];
  sent = 1 ∷ 2 ∷ 3 ∷ [];
  shown = 7 ∷ [];
  fins = 1;
}

session_run : turns session start ≡ returned left_behind
unfolding turns turn and_then wait_ready from_stdin stdin_gave from_sock sock_gave to_stdout
    stdout_took to_sock sock_took fill wrote pending send_fin start
session_run = refl

turns-Copied_example : Kept IsCopied (turns session start)
turns-Copied_example = turns-Copied session

halfway-IsCopied : IsCopied left_behind
unfolding pending
halfway-IsCopied = record {
  to = record { ordered = omega arith; bounded = omega arith; rewound = λ e. refl };
  fr = record {
    ordered = omega arith;
    bounded = omega arith;
    rewound = λ e. absurd (omega (arith, e));
  };
  out = refl;
  back = refl;
  fin = refl;
}

abbrev closing : Report
closing = record quiet { sock_readable = true; sock_read = gives [] }

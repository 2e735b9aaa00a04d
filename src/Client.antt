-- ===== src/Client.antt =====
-- What a client of the local channel does for one request: `request` in crates/omni-cli/src/main.rs
-- and in omni/src-tauri/src/ipc.rs. Finding the state directory, connecting, writing and reading are
-- the outside world's. Requests and responses that are written out as JSON are read back as they
-- were.
use omnipresent.Prelude.{Bool, true, false, Option, none, some, ◌++◌}
use omnipresent.Prelude.Text.{Text, codes}
use omnipresent.Prelude.Outcome.{Outcome, ok, err}
use omnipresent.Runtime.Daemon.Commands.{
  Answer, ok_answer, error_answer, hello_answer, status_answer, peers_answer, layout_answer,
  modifiers_answer,
}

-- What reading one line brings: an error, nothing, a line that is no response, or a response with the
-- message that an error carries.
pub data Reply : Type 0 where
  unread : Text → Reply
  closed : Reply
  garbled : Text → Reply
  answered : Text → Answer → Reply

-- What the world does: an error for the state directory and for writing, if there is one.
pub record Exchange : Type 0 where
  pub unresolved : Option Text
  pub connected : Bool
  pub unwritten : Option Text
  pub reply : Reply

abbrev pub of_answer : Text → Answer → Outcome Text Answer
of_answer message ok_answer = ok ok_answer
of_answer message error_answer = err message
of_answer message (hello_answer v) = ok (hello_answer v)
of_answer message (status_answer s) = ok (status_answer s)
of_answer message (peers_answer ps) = ok (peers_answer ps)
of_answer message (layout_answer hs) = ok (layout_answer hs)
of_answer message (modifiers_answer hs) = ok (modifiers_answer hs)

abbrev of_reply : Reply → Outcome Text Answer
of_reply (unread e) = err (codes "the daemon did not answer: " ++ e)
of_reply closed = err (codes "the daemon closed the connection without answering")
of_reply (garbled e) = err (codes "bad reply: " ++ e)
of_reply (answered message a) = of_answer message a

abbrev written : Option Text → Reply → Outcome Text Answer
written (some e) r = err (codes "could not reach the daemon: " ++ e)
written none r = of_reply r

abbrev connected_to : Text → Bool → Option Text → Reply → Outcome Text Answer
connected_to absent false u r = err absent
connected_to absent true u r = written u r

abbrev resolved : Text → Option Text → Bool → Option Text → Reply → Outcome Text Answer
resolved absent (some e) c u r = err e
resolved absent none c u r = connected_to absent c u r

-- With the message for a daemon that does not run.
unfoldable pub exchange : Text → Exchange → Outcome Text Answer
exchange absent w = resolved absent w.unresolved w.connected w.unwritten w.reply

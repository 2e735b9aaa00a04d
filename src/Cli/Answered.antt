-- ===== src/Cli/Answered.antt =====
-- What the commands come to when the daemon of this repository answers.
use omnipresent.Runtime.Daemon.Links.{set_modifier_swap, set_layout}
use omnipresent.Runtime.Daemon.Dialing.{split_host, do_connect}
use omnipresent.Prelude.{
  arith, ap, ◌≡◌, ◌⊎◌, Bool, true, false, none, some, inl, inr, not, refl, ◌∙◌,
}
use omnipresent.Prelude.Text.{Text}
use omnipresent.Prelude.Outcome.{Outcome, ok, err, panic}
use omnipresent.Runtime.Trust.{TrustFile}
use omnipresent.Runtime.Trust
use omnipresent.Runtime.Daemon.Incoming.{Service, decide_pending}
use omnipresent.Runtime.Daemon.Commands.{
  disconnect_link, set_clipboard, of_response, known, of_outcome, Request, World, dispatch, Answer,
  ok_answer, error_answer, hello_answer, status_answer, peers_answer, layout_answer,
  modifiers_answer, answer_of,
}
use omnipresent.Runtime.Daemon.Commands
use omnipresent.Runtime.Daemon.Links
use omnipresent.Client.{answered, exchange}
use omnipresent.Cli.{
  clipboard_sharing, modifiers, reject_peer, get_status, layout, remove_peer, accept_peer,
  end_session, connect, Command, Talk, start, stop, status, peers, doctor, update, uninstall,
  daemon, connect_to, disconnect, accept, reject, remove, layout_of, modifiers_of, clipboard, main,
  request_of, simple,
}

abbrev pub is_error : Answer → Bool
is_error error_answer = true
is_error ok_answer = false
is_error (hello_answer v) = false
is_error (status_answer s) = false
is_error (peers_answer ps) = false
is_error (layout_answer hs) = false
is_error (modifiers_answer hs) = false

-- An answer with nothing in it.
abbrev IsPlain : Answer → Type 0
IsPlain a = (a ≡ ok_answer) ⊎ (a ≡ error_answer)

answer_of-IsPlain : (b : Bool) → IsPlain (answer_of b)
answer_of-IsPlain true = inl refl
answer_of-IsPlain false = inr refl

of_outcome-IsPlain : {E A : Type 0} (o : Outcome E A) → IsPlain (of_outcome o)
of_outcome-IsPlain (ok a) = inl refl
of_outcome-IsPlain (err e) = inr refl
of_outcome-IsPlain panic = inr refl

known-IsPlain : (o : Outcome (Unit {0}) Bool) → IsPlain (known o)
known-IsPlain (ok b) = answer_of-IsPlain b
known-IsPlain (err e) = inr refl
known-IsPlain panic = inr refl

of_response-IsPlain : (r : Links.Response) → IsPlain (of_response r)
of_response-IsPlain Links.done = inl refl
of_response-IsPlain Links.refused = inr refl
of_response-IsPlain Links.not_saved = inr refl

module _ (save : TrustFile → Outcome (Unit {0}) (Unit {0})) (w : World) (s : Service)
    (message : Text) where
  -- A daemon in the state that is reached and answers; `message` is the text of an error.
  abbrev pub daemon_at : Talk
  daemon_at r = record {
    unresolved = none;
    connected = true;
    unwritten = none;
    reply = answered message (dispatch save w r s).1;
  }

  plain_simple :
      (r : Request)
      → IsPlain (dispatch save w r s).1
      → simple daemon_at r ≡ not (is_error (dispatch save w r s).1)
  unfolding simple exchange
  plain_simple r (inl e) = rw e refl
  plain_simple r (inr e) = rw e refl

  simple-connect : (host : Text) → IsPlain (dispatch save w (connect host) s).1
  unfolding dispatch
  simple-connect host = of_outcome-IsPlain (do_connect save (split_host host s.port).0 w.dialed s).1

  simple-disconnect : (host : Text) → IsPlain (dispatch save w (end_session host) s).1
  unfolding dispatch
  simple-disconnect host = answer_of-IsPlain (disconnect_link host s).1

  simple-decide :
      (peer : Text)
      → IsPlain (dispatch save w (accept_peer peer) s).1
        × IsPlain (dispatch save w (reject_peer peer) s).1
  unfolding dispatch
  simple-decide peer = (
    answer_of-IsPlain (decide_pending peer true s).1,
    answer_of-IsPlain (decide_pending peer false s).1,
  )

  simple-remove : (host : Text) → IsPlain (dispatch save w (remove_peer host) s).1
  unfolding dispatch
  simple-remove host = known-IsPlain (Trust.remove save host (disconnect_link host s).0.trust).1

  simple-set :
      (host value : Text)
      → IsPlain (dispatch save w (layout (some host) (some value)) s).1
        × IsPlain (dispatch save w (modifiers (some host) (some value)) s).1
  unfolding dispatch
  simple-set host value = (
    of_response-IsPlain (set_layout w.saved host value s.daemon).1,
    of_response-IsPlain (set_modifier_swap w.saved host value s.daemon).1,
  )

  simple-clipboard : (enabled : Bool) → IsPlain (dispatch save w (clipboard_sharing enabled) s).1
  unfolding dispatch set_clipboard
  simple-clipboard enabled = answer_of-IsPlain w.saved

  asked :
      (r r' : Request)
      → some r ≡ some r'
      → IsPlain (dispatch save w r s).1
      → simple daemon_at r ≡ not (is_error (dispatch save w r' s).1)
  asked r r' h p =
      let e : r ≡ r' = cc h in plain_simple r p ∙ ap (λ q. not (is_error (dispatch save w q s).1)) e

  listed :
      (r r' : Request) (b : Bool)
      → some r ≡ some r'
      → is_error (dispatch save w r s).1 ≡ not b
      → b ≡ not (is_error (dispatch save w r' s).1)
  listed r r' b h p = let e : r ≡ r' = cc h in rw (← e, p) (ground arith)

  -- Against a daemon that is reached and answers, a command that is one request succeeds exactly if
  -- the daemon does not answer with an error: none of its other answers is unexpected.
  pub main-dispatch :
      (c : Command) (r : Request) (other : Bool)
      → request_of c ≡ some r
      → main daemon_at other c ≡ not (is_error (dispatch save w r s).1)
  unfolding main exchange dispatch
  main-dispatch stop r other h = asked Commands.stop r h (inl refl)
  main-dispatch status r other h = listed get_status r true h refl
  main-dispatch peers r other h = listed Commands.peers r true h refl
  main-dispatch (connect_to host) r other h = asked (connect host) r h (simple-connect host)
  main-dispatch (disconnect host) r other h = asked (end_session host) r h (simple-disconnect host)
  main-dispatch (accept peer) r other h = asked (accept_peer peer) r h (simple-decide peer).0
  main-dispatch (reject peer) r other h = asked (reject_peer peer) r h (simple-decide peer).1
  main-dispatch (remove host) r other h = asked (remove_peer host) r h (simple-remove host)
  main-dispatch (layout_of (some host) (some edge)) r other h =
      asked (layout (some host) (some edge)) r h (simple-set host edge).0
  main-dispatch (layout_of (some host) none) r other h = absurd (cc h)
  main-dispatch (layout_of none edge) r other h = listed (layout none none) r true h refl
  main-dispatch (modifiers_of (some host) (some swap)) r other h =
      asked (modifiers (some host) (some swap)) r h (simple-set host swap).1
  main-dispatch (modifiers_of (some host) none) r other h = absurd (cc h)
  main-dispatch (modifiers_of none swap) r other h = listed (modifiers none none) r true h refl
  main-dispatch (clipboard enabled) r other h =
      asked (clipboard_sharing enabled) r h (simple-clipboard enabled)
  main-dispatch start r other h = absurd (cc h)
  main-dispatch doctor r other h = absurd (cc h)
  main-dispatch update r other h = absurd (cc h)
  main-dispatch uninstall r other h = absurd (cc h)
  main-dispatch daemon r other h = absurd (cc h)

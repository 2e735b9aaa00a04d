-- ===== src/App/Ipc.antt =====
-- omni/src-tauri/src/ipc.rs: the commands of the window, each one request to the daemon. The world is
-- a function from the request to what comes of it.
use omnipresent.Prelude.{
  ℕ, ◌≡◌, ◌||◌, Bool, true, false, none, some, List, [], ◌∷◌, ◌++◌, leb, list_eq, nat_eq, refl,
}
use omnipresent.Prelude.Lists.{starts_with}
use omnipresent.Prelude.Text.{Text, codes}
use omnipresent.Prelude.Outcome.{Outcome, ok, err, panic, ◌>>=◌}
use omnipresent.Runtime.Trust.{TrustFile}
use omnipresent.Runtime.Daemon.Listing.{
  HostInfo, PeerInfo, StatusInfo, list_layout, list_modifier_swaps, list_peers, status,
}
use omnipresent.Runtime.Daemon.Incoming.{Service}
use omnipresent.Runtime.Daemon.Commands.{
  Request, hello, get_status, stop, peers, connect, end_session, accept_peer, reject_peer,
  remove_peer, layout, modifiers, clipboard_sharing, Answer, hello_answer, status_answer,
  peers_answer, layout_answer, modifiers_answer, protocol_version, World, dispatch, report,
}
use omnipresent.Client.{Exchange, answered, exchange}

abbrev pub Talk : Type 0
Talk = Request → Exchange

-- `request`
unfoldable pub request : Talk → Request → Outcome Text Answer
unfolding exchange
request talk r = exchange (codes "the daemon is not running") (talk r)

-- `str::contains`
abbrev pub contains_text : Text → Text → Bool
contains_text [] part = starts_with [] part
contains_text (c ∷ cs) part = starts_with (c ∷ cs) part || contains_text cs part

abbrev stopped : Outcome Text Answer → Bool
stopped (ok a) = true
stopped (err message) = contains_text message (codes "not running")
stopped panic = false

-- `request_stop` of daemon.rs: whether it succeeds.
unfoldable pub request_stop : Talk → Bool
unfolding request
request_stop talk = stopped (request talk stop)

abbrev pub unexpected : {A : Type 0} → Text → Outcome Text A
unexpected what = err (codes "the daemon answered something other than " ++ what)

abbrev expect_status : Answer → Outcome Text StatusInfo
expect_status (status_answer s) = ok s
expect_status _ = unexpected (codes "a status")

unfoldable pub daemon_status : Talk → Outcome Text StatusInfo
unfolding request
daemon_status talk = request talk get_status >>= expect_status

-- `DaemonVersion`; the version of the build is left out.
pub record DaemonVersion : Type 0 where
  pub protocol_version : ℕ
  pub compatible : Bool

abbrev expect_hello : Answer → Outcome Text DaemonVersion
expect_hello (hello_answer v) =
    ok (record { protocol_version = v; compatible = leb v protocol_version })
expect_hello _ = unexpected (codes "a hello")

unfoldable pub daemon_hello : Talk → Outcome Text DaemonVersion
unfolding request
daemon_hello talk = request talk hello >>= expect_hello

abbrev expect_peers : Answer → Outcome Text (List PeerInfo)
expect_peers (peers_answer ps) = ok ps
expect_peers _ = unexpected (codes "a peer list")

unfoldable pub peer_list : Talk → Outcome Text (List PeerInfo)
unfolding request
peer_list talk = request talk peers >>= expect_peers

abbrev expect_layout : Answer → Outcome Text (List HostInfo)
expect_layout (layout_answer hs) = ok hs
expect_layout _ = unexpected (codes "a layout")

unfoldable pub layout_list : Talk → Outcome Text (List HostInfo)
unfolding request
layout_list talk = request talk (layout none none) >>= expect_layout

abbrev expect_modifiers : Answer → Outcome Text (List HostInfo)
expect_modifiers (modifiers_answer hs) = ok hs
expect_modifiers _ = unexpected (codes "a modifier list")

unfoldable pub modifiers_list : Talk → Outcome Text (List HostInfo)
unfolding request
modifiers_list talk = request talk (modifiers none none) >>= expect_modifiers

-- `request(…).map(|_| ())`
abbrev only_done : Outcome Text Answer → Outcome Text (Unit {0})
only_done o = o >>= λ a. ok tt

unfoldable pub peer_connect : Talk → Text → Outcome Text (Unit {0})
unfolding request
peer_connect talk host = only_done (request talk (connect host))

unfoldable pub peer_disconnect : Talk → Text → Outcome Text (Unit {0})
unfolding request
peer_disconnect talk host = only_done (request talk (end_session host))

unfoldable pub peer_accept : Talk → Text → Outcome Text (Unit {0})
unfolding request
peer_accept talk selector = only_done (request talk (accept_peer selector))

unfoldable pub peer_reject : Talk → Text → Outcome Text (Unit {0})
unfolding request
peer_reject talk selector = only_done (request talk (reject_peer selector))

unfoldable pub peer_remove : Talk → Text → Outcome Text (Unit {0})
unfolding request
peer_remove talk selector = only_done (request talk (remove_peer selector))

unfoldable pub layout_set : Talk → Text → Text → Outcome Text (Unit {0})
unfolding request
layout_set talk host edge = only_done (request talk (layout (some host) (some edge)))

unfoldable pub modifiers_set : Talk → Text → Text → Outcome Text (Unit {0})
unfolding request
modifiers_set talk host swap = only_done (request talk (modifiers (some host) (some swap)))

unfoldable pub clipboard_set : Talk → Bool → Outcome Text (Unit {0})
unfolding request
clipboard_set talk enabled = only_done (request talk (clipboard_sharing enabled))

module _ (save : TrustFile → Outcome (Unit {0}) (Unit {0})) (w : World) (s : Service)
    (message : Text) where
  -- A daemon in the state that is reached and answers; `message` is the text of an error.
  abbrev pub talk_to : Talk
  talk_to r = record {
    unresolved = none;
    connected = true;
    unwritten = none;
    reply = answered message (dispatch save w r s).1;
  }

  -- A daemon that is reached never answers with something that the window does not expect: each
  -- question gets what the daemon holds, the daemon's protocol counts as compatible, and asking it to
  -- stop succeeds.
  pub commands-dispatch :
      (daemon_status talk_to ≡ ok (status (report s) s.pending s.trust s.daemon))
      × (daemon_hello talk_to
          ≡ ok (record { protocol_version = protocol_version; compatible = true }))
      × (peer_list talk_to ≡ ok (list_peers s.trust s.daemon))
      × (layout_list talk_to ≡ ok (list_layout s.daemon))
      × (modifiers_list talk_to ≡ ok (list_modifier_swaps s.daemon))
      × (request_stop talk_to ≡ true)
  unfolding dispatch daemon_status daemon_hello peer_list layout_list modifiers_list request_stop
      exchange
  commands-dispatch = (refl, refl, refl, refl, refl, refl)

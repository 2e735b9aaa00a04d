-- ===== src/Runtime/Daemon/Commands/Answers.antt =====
-- What a client's connection comes to.
use omnipresent.Prelude.{
  ◌≡◌, suc, Bool, false, ◌||◌, Option, List, [], ◌∷◌, refl, Bool-cases, inl, inr, if◌then◌else◌, ap,
}
use omnipresent.Prelude.Lists.{length}
use omnipresent.Prelude.Outcome.{Outcome}
use omnipresent.Runtime.Trust.{TrustFile}
use omnipresent.Runtime.Daemon.Incoming.{Service}
use omnipresent.Runtime.Daemon.Commands.{
  answer_line, Request, World, handle_client, is_stop, is_subscribe,
}

abbrev pub Line : Type 0
Line = World × Option Request

-- The lines before the first subscription.
abbrev pub commands : List Line → List Line
commands [] = []
commands (l ∷ ls) = let rest = commands ls in if is_subscribe l.1 then [] else l ∷ rest

abbrev pub some_line : (Option Request → Bool) → List Line → Bool
some_line test [] = false
some_line test (l ∷ ls) = test l.1 || some_line test ls

module _ (save : TrustFile → Outcome (Unit {0}) (Unit {0})) where
  -- A client that reads its answers gets one for each line that it sends before it subscribes, one
  -- that is no request included; the daemon shuts down if and only if one of these lines asks for it,
  -- and the connection becomes a subscription if and only if some line subscribes.
  pub handle_client_lem :
      (lines : List Line) (s : Service)
      → let r = handle_client save lines s in
        (length r.answers ≡ length (commands lines))
        × (r.shut_down ≡ some_line is_stop (commands lines))
        × (r.subscribed ≡ some_line is_subscribe lines)
  unfolding handle_client
  handle_client_lem [] s = (refl, refl, refl)
  handle_client_lem ((w, line) ∷ lines) s =
      let (a, b, c) = handle_client_lem lines (answer_line save w line s).0 in
      elim (Bool-cases (is_subscribe line)) [
        | inl y ↦ rw (y, handle_client) (refl, refl, refl)
        | inr n ↦ rw (n, handle_client) (ap suc a, ap (λ t. is_stop line || t) b, c)
      ]

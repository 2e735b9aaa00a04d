-- ===== src/Runtime/Daemon/Dialing/Hosts.antt =====
-- How the argument of `omni connect` is read.
use omnipresent.Prelude.{
  ◌≡◌, ℕ, false, [], ◌∷◌, ◌++◌, none, some, refl, arith, if◌then◌else◌, nat_eq,
}
use omnipresent.Prelude.Text.{Text}
use omnipresent.Runtime.Daemon.Dialing.{colon, has_colon, rsplit_once, parse_u16, split_host}

rsplit_once-none : (t : Text) → has_colon t ≡ false → rsplit_once t ≡ none
unfolding rsplit_once
rsplit_once-none [] h = refl
rsplit_once-none (c ∷ t) h =
    let e : has_colon t ≡ false = ground arith in ground (arith, rsplit_once-none t e)

rsplit_once-some : (h p : Text) → has_colon p ≡ false → rsplit_once (h ++ (colon ∷ p)) ≡ some (h, p)
unfolding rsplit_once
rsplit_once-some [] p k = rw (rsplit_once-none p k) refl
rsplit_once-some (c ∷ h) p k = rw (rsplit_once-some h p k) refl

-- A text without a colon is a host, reached at the default port. A text with colons, split at the last
-- one, is a host and a port if no colon is left in the host and the rest is a port number; otherwise
-- (an IPv6 address, for one) all of it is the host.
pub split_host_lem :
    (t h p : Text) (default_port : ℕ)
    → has_colon t ≡ false
    → has_colon p ≡ false
    → (split_host t default_port ≡ (t, default_port))
      × (split_host (h ++ (colon ∷ p)) default_port ≡ elim (parse_u16 p) [
        | none ↦ (h ++ (colon ∷ p), default_port)
        | some port ↦ if has_colon h then (h ++ (colon ∷ p), default_port) else (h, port)
      ])
unfolding split_host
split_host_lem t h p d k l =
    (rw (rsplit_once-none t k, split_host) refl, rw (rsplit_once-some h p l, split_host) refl)

-- ===== src/Transport/Tls.antt =====
-- crates/omni-transport/src/tls.rs and policy.rs: the checks of a peer's certificate under a
-- handshake policy. The fingerprint of a certificate is an external library's, and so is the check of
-- the signature, which proves that the peer holds the certificate's key.
use omnipresent.Prelude.{◌≡◌, Bool, true, false, some, ◌==◌, list_eq, nat_eq, refl}
use omnipresent.Prelude.Text.{Text}
use omnipresent.Prelude.Outcome.{Outcome, ok, err}
use omnipresent.Protocol.Ids.{Fingerprint, IsDigest}
use omnipresent.Protocol.Wire.{Bytes}
use omnipresent.Runtime.Trust.{TrustFile, accepted, authorize_server}
use omnipresent.Runtime.Trust.Pins.{pinned-accepted}

-- The `HandshakePolicy` port: whether a certificate with the fingerprint is let in.
pub record HandshakePolicy : Type 0 where
  pub server_is_authorized : Text → Fingerprint → Bool
  pub client_is_authorized : Fingerprint → Bool

-- What the daemon remembers is the policy. Everyone may finish the handshake of an inbound
-- connection.
unfoldable pub trust_policy : TrustFile → HandshakePolicy
unfolding authorize_server
trust_policy file = record {
  server_is_authorized = λ host f. authorize_server host f file;
  client_is_authorized = λ f. true;
}

-- A name that was dialed, an IP address with its text.
pub data ServerName : Type 0 where
  dns_name ip_address : Text → ServerName
  unsupported : ServerName

pub data TlsError : Type 0 where
  general invalid_certificate : TlsError

abbrev pub verdict : Bool → Outcome TlsError (Unit {0})
verdict true = ok tt
verdict false = err invalid_certificate

module _ (fingerprint_of : Bytes → Fingerprint) (policy : HandshakePolicy) where
  -- `PolicyServerVerifier::verify_server_cert`
  unfoldable pub verify_server_cert : Bytes → ServerName → Outcome TlsError (Unit {0})
  verify_server_cert cert (dns_name host) =
      verdict (policy.server_is_authorized host (fingerprint_of cert))
  verify_server_cert cert (ip_address host) =
      verdict (policy.server_is_authorized host (fingerprint_of cert))
  verify_server_cert cert unsupported = err general

  -- `PolicyClientVerifier::verify_client_cert`
  unfoldable pub verify_client_cert : Bytes → Outcome TlsError (Unit {0})
  verify_client_cert cert = verdict (policy.client_is_authorized (fingerprint_of cert))

-- Whatever the daemon remembered, once it accepted a digest for a host: a server that is dialed
-- under this host, by name or by address, passes the check exactly if its certificate has that
-- digest; a name of another kind never passes; and a client passes with any certificate.
pub verify_server_cert-accepted :
    (fingerprint_of : Bytes → Fingerprint) (f : Fingerprint) (h : Text) (file : TrustFile)
    (cert : Bytes)
    → IsDigest f
    → let policy = trust_policy (accepted f (some h) file) in
      (verify_server_cert fingerprint_of policy cert (dns_name h)
        ≡ verdict (f == fingerprint_of cert))
      × (verify_server_cert fingerprint_of policy cert (ip_address h)
          ≡ verdict (f == fingerprint_of cert))
      × (verify_server_cert fingerprint_of policy cert unsupported ≡ err general)
      × (verify_client_cert fingerprint_of policy cert ≡ ok tt)
unfolding trust_policy verify_server_cert verify_client_cert
verify_server_cert-accepted fingerprint_of f h file cert d =
    let e = (pinned-accepted f h file d).1 (fingerprint_of cert) in
    (rw e refl, rw e refl, refl, refl)

-- ===== src/Runtime/Identity.antt =====
-- crates/omni-runtime/src/identity.rs, crates/omni-runtime/src/secure.rs and the identity of
-- crates/omni-security/src/identity.rs: the certificate and the key that are kept in two files. Making
-- a key pair, the fingerprint of a certificate and the file system are the outside world's: what is
-- made, and what becomes of each write.
use omnipresent.Prelude.{ap, ◌≡◌, Option, none, some}
use omnipresent.Prelude.Outcome.{Outcome, ok, err}
use omnipresent.Protocol.Ids.{Fingerprint}
use omnipresent.Protocol.Wire.{Bytes}

-- What reading a file brings.
pub data File : Type 0 where
  holds : Bytes → File
  missing unreadable : File

pub record Files : Type 0 where
  pub certificate : File
  pub key : File

pub record LocalIdentity : Type 0 where
  pub certificate_der : Bytes
  pub private_key_der : Bytes
  pub fingerprint : Fingerprint

-- A write that fails leaves anything behind.
pub data Write : Type 0 where
  written : Write
  failed : File → Write

-- What the world does: the certificate and the key that are made, if they are, and the two writes.
pub record Making : Type 0 where
  pub made : Option (Bytes × Bytes)
  pub certificate_write : Write
  pub key_write : Write

pub data IoError : Type 0 where
  not_read not_generated not_written : IoError

abbrev pub keep_key : LocalIdentity → Write → Files × Outcome IoError LocalIdentity
keep_key id written =
    (record { certificate = holds id.certificate_der; key = holds id.private_key_der }, ok id)
keep_key id (failed f) =
    (record { certificate = holds id.certificate_der; key = f }, err not_written)

abbrev pub keep : LocalIdentity → Write → Write → Files → Files × Outcome IoError LocalIdentity
keep id (failed f) k files = (record files { certificate = f }, err not_written)
keep id written k files = keep_key id k

module _ (fingerprint_of : Bytes → Fingerprint) where
  -- `LocalIdentity::new` of a certificate, with its fingerprint
  abbrev pub identity_of : Bytes → Bytes → LocalIdentity
  identity_of cert key = record {
    certificate_der = cert;
    private_key_der = key;
    fingerprint = fingerprint_of cert;
  }

  -- `generate_identity`
  unfoldable pub generate_identity : Option (Bytes × Bytes) → Option LocalIdentity
  generate_identity none = none
  generate_identity (some (cert, key)) = some (identity_of cert key)

  abbrev generated : Option LocalIdentity → Making → Files → Files × Outcome IoError LocalIdentity
  generated none w files = (files, err not_generated)
  generated (some id) w files = keep id w.certificate_write w.key_write files

  abbrev found : File → File → Making → Files → Files × Outcome IoError LocalIdentity
  found (holds cert) (holds key) w files = (files, ok (identity_of cert key))
  found unreadable key w files = (files, err not_read)
  found (holds cert) unreadable w files = (files, err not_read)
  found missing unreadable w files = (files, err not_read)
  found missing (holds key) w files = generated (generate_identity w.made) w files
  found missing missing w files = generated (generate_identity w.made) w files
  found (holds cert) missing w files = generated (generate_identity w.made) w files

  -- `load_or_generate`
  unfoldable pub load_or_generate : Making → Files → Files × Outcome IoError LocalIdentity
  unfolding generate_identity
  load_or_generate w files = found files.certificate files.key w files

  -- What was made and could be kept is what is loaded.
  generated_kept :
      (made : Option (Bytes × Bytes)) (c k : Write) (files : Files) (v : Making)
      (id : LocalIdentity)
      → let w : Making = record { made = made; certificate_write = c; key_write = k } in
        let r = generated (generate_identity made) w files in
        r.1 ≡ ok id → load_or_generate v r.0 ≡ (r.0, ok id)
  unfolding generate_identity load_or_generate
  generated_kept none c k files v id h = absurd (cc h)
  generated_kept (some (cert, key)) (failed f) k files v id h = absurd (cc h)
  generated_kept (some (cert, key)) written (failed f) files v id h = absurd (cc h)
  generated_kept (some (cert, key)) written written files v id h =
      ap (λ o. (record { certificate = holds cert; key = holds key }, o)) h

  found_kept :
      (c k : File) (w v : Making) (id : LocalIdentity)
      → let r = found c k w (record { certificate = c; key = k }) in
        r.1 ≡ ok id → load_or_generate v r.0 ≡ (r.0, ok id)
  unfolding load_or_generate
  found_kept (holds cert) (holds key) w v id h =
      ap (λ o. (record { certificate = holds cert; key = holds key }, o)) h
  found_kept unreadable k w v id h = absurd (cc h)
  found_kept (holds cert) unreadable w v id h = absurd (cc h)
  found_kept missing unreadable w v id h = absurd (cc h)
  found_kept missing (holds key) w v id h =
      generated_kept w.made w.certificate_write w.key_write
        (record { certificate = missing; key = holds key }) v id h
  found_kept missing missing w v id h =
      generated_kept w.made w.certificate_write w.key_write
        (record { certificate = missing; key = missing }) v id h
  found_kept (holds cert) missing w v id h =
      generated_kept w.made w.certificate_write w.key_write
        (record { certificate = holds cert; key = missing }) v id h

  -- The identity is stable: whatever the files were, once loading has succeeded, each later loading
  -- gives the same identity and changes no file, whatever key pair could be made then.
  pub load_or_generate-load_or_generate :
      (w v : Making) (files : Files) (id : LocalIdentity)
      → (load_or_generate w files).1 ≡ ok id
      → load_or_generate v (load_or_generate w files).0 ≡ ((load_or_generate w files).0, ok id)
  unfolding load_or_generate
  load_or_generate-load_or_generate w v files id h = found_kept files.certificate files.key w v id h

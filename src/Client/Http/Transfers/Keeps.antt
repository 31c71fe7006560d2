-- ===== src/Client/Http/Transfers/Keeps.antt =====
-- What a download leaves as it was.
use scrigno.Prelude.{ℕ, zero, suc, ◌+◌, ◌≡◌, refl, ◌∙◌, Option, none, ltb, Result}
use scrigno.Prelude.Bytes.{Bytes}
use scrigno.Server.{Uuid}
use scrigno.Client.{ClientError}
use scrigno.Client.Http.{get_blob, Transport, Wire, backoff, retry_attempts}
use scrigno.Client.Http.Transfers.{
  Attempt, done, again, download_attempt, download_from, get_blob_to_file,
}

data AttemptCases (a : Attempt) : Type 0 where
  ended :
      (result : Result ClientError (ℕ × Bytes)) (tmp : Option Bytes)
      → a ≡ done result tmp
      → AttemptCases a
  repeated : (tmp : Option Bytes) → a ≡ again tmp → AttemptCases a

Attempt-cases : (a : Attempt) → AttemptCases a
Attempt-cases (done result tmp) = ended result tmp refl
Attempt-cases (again tmp) = repeated tmp refl

module _ {A Remote : Type 0} (net : Transport Remote) (wire : Wire) (sha256 : Bytes → Bytes)
    (f : Remote → A) (id : Uuid) (sent : (r : Remote) → f (net.send (get_blob id) r).1 ≡ f r)
    (slept : (n : ℕ) (r : Remote) → f (net.sleep n r) ≡ f r) where
  download_from-keeps :
      (left attempt : ℕ) (tmp : Option Bytes) (r : Remote)
      → f (download_from net wire sha256 left attempt id tmp r).1 ≡ f r
  unfolding download_from backoff
  download_from-keeps zero attempt tmp r = refl
  download_from-keeps (suc left) attempt tmp r =
      let r' = (net.send (get_blob id) r).1 in
      elim (Attempt-cases (
        download_attempt net wire sha256 (ltb (attempt + 1) retry_attempts)
          (net.send (get_blob id) r).0 tmp)) [
            | ended result tmp' e ↦ rw (download_from, e) (sent r)
            | repeated tmp' e ↦
                rw (download_from, e)
                  (download_from-keeps left (attempt + 1) tmp' (backoff net attempt r')
                    ∙ slept _ r'
                    ∙ sent r)
          ]

  pub get_blob_to_file-keeps : (r : Remote) → f (get_blob_to_file net wire sha256 id r).1 ≡ f r
  unfolding get_blob_to_file
  get_blob_to_file-keeps r = download_from-keeps retry_attempts 0 none r

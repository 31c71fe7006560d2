-- ===== src/Core/Blob/Sizes.antt =====
-- A blob is at least as long as its text.
use scrigno.Prelude.{◌≤◌, ◌≡◌, ap, some, List, [], ◌∷◌, ◌++◌, length, length-append, arith}
use scrigno.Prelude.Options.{>>=-eq-some, some-eq-some}
use scrigno.Prelude.Bytes.{Bytes, join}
use scrigno.Core.{DocId}
use scrigno.Core.Wrap.{WrappedKey}
use scrigno.Core.Stream.{Stream, StreamLaws}
use scrigno.Core.Blob.{build_header}
use scrigno.Core.Blob.Segments.{seal_body}
use scrigno.Core.Blob.Encrypting.{IsBlob}

module _ {SealState OpenState : Type 0} (streams : Stream SealState OpenState)
    (laws : StreamLaws streams) where
  length-seal_body :
      (aad : Bytes) (e : SealState) (chunks : List Bytes) (last body : Bytes)
      → seal_body streams aad e chunks last ≡ some body
      → length (join chunks ++ last) ≤ length body
  unfolding seal_body join
  length-seal_body aad e [] last body h = omega (arith, laws.length-encrypt_last e aad last body h)
  length-seal_body aad e (c ∷ chunks) last body h =
      let ((a, e1), p, q) = >>=-eq-some (streams.encrypt_next e aad c) _ h in
      let (b, r, t) = >>=-eq-some (seal_body streams aad e1 chunks last) _ q in
      omega (
        arith,
        (laws.encrypt_next_steps e e1 aad c a p).1,
        length-seal_body aad e1 chunks last b r,
        length-append a b,
        ap length (some-eq-some t),
        length-append (c ++ join chunks) last,
        length-append c (join chunks),
        length-append (join chunks) last,
      )

  pub length-IsBlob :
      (doc_id : DocId) (wrapped : WrappedKey) (dek prefix' text blob : Bytes)
      → IsBlob streams doc_id wrapped dek prefix' text blob
      → length text ≤ length blob
  length-IsBlob doc_id wrapped dek prefix' text blob is_blob =
      let s = is_blob.seals in
      omega (
        arith,
        ap length is_blob.parts,
        length-append (build_header wrapped prefix') is_blob.body,
        ap length s.whole,
        length-seal_body _ _ s.chunks s.last is_blob.body s.sealed,
      )

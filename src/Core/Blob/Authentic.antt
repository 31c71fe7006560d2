-- ===== src/Core/Blob/Authentic.antt =====
-- What the decryptor accepts: from any reader, a text that it gives to the end is the one whose sealed
-- form it has read.
use scrigno.Prelude.{
  ℕ, ◌≤◌, ◌≡◌, ◌≢◌, refl, sym, ap, ◌∙◌, subst, true, false, none, some, List, [], ◌∷◌, ◌++◌, length,
  take, drop, ltb, length-append, length-take, length-drop, append-nil, take-append-drop,
  Bool-cases, Option-cases, List-cases, eq-nil_of_length, ◌⊎◌, inl, inr, All, Result, ok, err,
  arith,
}
use scrigno.Prelude.Bytes.{Bytes, join}
use scrigno.Core.Stream.{IoError, Stream, StreamLaws, Reader, Supplies, read_up_to}
use scrigno.Core.Blob.{
  Decryptor, chunk_size, tag_len, pending_bytes, probe, open_segment, fill_next_segment,
}
use scrigno.Core.Blob.Segments.{IsFull, seal_body}
use scrigno.Core.Blob.Decrypting.{
  segment_len, fill_made, probe_full, open_last, open_next, got_segment,
}

err-ne-ok : {x : IoError} → ◌≢◌ {A = Result IoError (Unit {0})} (err x) (ok tt)
err-ne-ok h = cc

module _ {SealState OpenState R : Type 0} (streams : Stream SealState OpenState)
    (laws : StreamLaws streams) (io : Reader R) (sup : Supplies io) where
  -- `body` is `text` sealed from `e` on, in full chunks and a last one that is not longer.
  pub record Authentic (aad : Bytes) (e : SealState) (text body : Bytes) : Type 0 where
    pub chunks : List Bytes
    pub last : Bytes
    pub full : All IsFull chunks
    pub bounded : length last ≤ chunk_size
    pub whole : text ≡ join chunks ++ last
    pub sealed : seal_body streams aad e chunks last ≡ some body

  abbrev pub unread : Decryptor OpenState R → Bytes
  unread self = pending_bytes streams io self.pending ++ sup.contents self.reader

  -- The decryptor is at the same place as an encryptor in the state `enc`.
  pub record Ready (enc : SealState) (self : Decryptor OpenState R) : Type 0 where
    pub dec : OpenState
    pub stream : self.stream ≡ some dec
    pub paired : laws.Paired enc dec
    pub unfinished : self.finished ≡ false

  -- The last segment was opened.
  pub record OpenedLast (enc : SealState) (aad body : Bytes) (self : Decryptor OpenState R)
      : Type 0 where
    pub bounded : length self.out_buf ≤ chunk_size
    pub sealed : streams.encrypt_last enc aad self.out_buf ≡ some body
    pub start : self.out_pos ≡ 0
    pub finished : self.finished ≡ true

  -- Another segment was opened.
  pub record OpenedNext (enc : SealState) (aad body : Bytes) (self : Decryptor OpenState R)
      : Type 0 where
    pub segment : Bytes
    pub enc' : SealState
    pub full : IsFull self.out_buf
    pub sealed : streams.encrypt_next enc aad self.out_buf ≡ some (segment, enc')
    pub start : self.out_pos ≡ 0
    pub same_aad : self.aad ≡ aad
    pub parts : body ≡ segment ++ unread self
    pub ready : Ready enc' self

  probe_end :
      (ciphertext : Bytes) (r : R)
      → sup.contents r ≡ []
      → (probe streams io ciphertext r).0 ≡ ok (true, none)
  unfolding probe
  probe_end ciphertext r h =
      let (bytes, answer, split, most, _) = sup.reads 1 r in
      let n : bytes ≡ [] = eq-nil_of_length bytes (
        omega
          (arith, ap length (sym h ∙ split), length-append bytes (sup.contents (io.read 1 r).1))) in
      elim (Bool-cases (ltb (length ciphertext) segment_len)) [
        | inl e ↦ rw (probe, e) refl
        | inr e ↦ rw (probe, e, answer ∙ ap ok n) refl
      ]

  -- A success of `open_segment` is a success of the cipher.
  open_last-inverse :
      (ciphertext : Bytes) (self : Decryptor OpenState R) (d : OpenState)
      → self.stream ≡ some d
      → (open_segment streams io true ciphertext self).0 ≡ ok tt
      → (text : Bytes) × (streams.decrypt_last d self.aad ciphertext ≡ some text)
        × (tag_len ≤ length ciphertext)
  unfolding open_segment
  open_last-inverse ciphertext self d s h = elim (Bool-cases (ltb (length ciphertext) tag_len)) [
    | inl e ↦ absurd (err-ne-ok (simp (open_segment, e) at h))
    | inr e ↦ elim (Option-cases (streams.decrypt_last d self.aad ciphertext)) [
      | inl o ↦ absurd (err-ne-ok (simp (open_segment, e, s, o) at h))
      | inr (text, o) ↦ (text, o, ground arith)
    ]
  ]

  open_next-inverse :
      (ciphertext : Bytes) (self : Decryptor OpenState R) (d : OpenState)
      → self.stream ≡ some d
      → (open_segment streams io false ciphertext self).0 ≡ ok tt
      → (text : Bytes) × (d' : OpenState) × (streams.decrypt_next d self.aad ciphertext
          ≡ some (text, d'))
        × (tag_len ≤ length ciphertext)
  unfolding open_segment
  open_next-inverse ciphertext self d s h = elim (Bool-cases (ltb (length ciphertext) tag_len)) [
    | inl e ↦ absurd (err-ne-ok (simp (open_segment, e) at h))
    | inr e ↦ elim (Option-cases (streams.decrypt_next d self.aad ciphertext)) [
      | inl o ↦ absurd (err-ne-ok (simp (open_segment, e, s, o) at h))
      | inr ((text, d'), o) ↦ (text, d', o, ground arith)
    ]
  ]

  -- The two ways in which a filled segment ends.
  filled_last :
      (self : Decryptor OpenState R) (e : SealState) (body : Bytes)
      → (r : Ready e self)
      → (let got =
            read_up_to io segment_len segment_len 8192
              (pending_bytes streams io self.pending)
              self.reader in
          got.0 ≡ ok body
          → (probe streams io body got.1).0 ≡ ok (true, none)
          → length body ≤ segment_len
          → (fill_next_segment streams io self).0 ≡ ok tt
          → OpenedLast e self.aad body (fill_next_segment streams io self).1)
  filled_last self e body r p q le h =
      let got =
        read_up_to io segment_len segment_len 8192 (pending_bytes streams io self.pending)
          self.reader in
      let self' : Decryptor OpenState R = record self {
        reader = (probe streams io body got.1).1;
        pending = none;
      } in
      let made = fill_made streams laws io sup self body true none p q in
      let (text, o, tagged) =
        open_last-inverse body self' r.dec r.stream (sym (ap (λ x. x.0) made) ∙ h) in
      let done = made ∙ open_last streams laws io sup body text self' r.dec tagged r.stream o in
      let sealed = laws.encrypt_last-decrypt_last e r.dec self.aad text body r.paired o in
      subst (λ x. OpenedLast e self.aad body x.1) (sym done)
        (record {
          bounded = omega (arith, laws.length-encrypt_last e self.aad text body sealed);
          sealed = sealed;
          start = refl;
          finished = refl;
        })

  filled_next :
      (self : Decryptor OpenState R) (e : SealState) (segment body : Bytes) (byte : ℕ)
      → (r : Ready e self)
      → (let got =
            read_up_to io segment_len segment_len 8192
              (pending_bytes streams io self.pending)
              self.reader in
          got.0 ≡ ok segment
          → (probe streams io segment got.1).0 ≡ ok (false, some byte)
          → length segment ≡ segment_len
          → body ≡ segment ++ byte ∷ sup.contents (probe streams io segment got.1).1
          → (fill_next_segment streams io self).0 ≡ ok tt
          → OpenedNext e self.aad body (fill_next_segment streams io self).1)
  filled_next self e segment body byte r p q len parts h =
      let got =
        read_up_to io segment_len segment_len 8192 (pending_bytes streams io self.pending)
          self.reader in
      let self' : Decryptor OpenState R = record self {
        reader = (probe streams io segment got.1).1;
        pending = some byte;
      } in
      let made = fill_made streams laws io sup self segment false (some byte) p q in
      let (text, d', o, tagged) =
        open_next-inverse segment self' r.dec r.stream (sym (ap (λ x. x.0) made) ∙ h) in
      let done =
        made ∙ open_next streams laws io sup segment text self' r.dec d' tagged r.stream o in
      let (e', sealed, paired) =
        laws.encrypt_next-decrypt_next e r.dec d' self.aad text segment r.paired o in
      subst (λ x. OpenedNext e self.aad body x.1) (sym done)
        (record {
          segment = segment;
          enc' = e';
          full = omega (arith, (laws.encrypt_next_steps e e' self.aad text segment sealed).1);
          sealed = sealed;
          start = refl;
          same_aad = refl;
          parts = parts;
          ready = record { dec = d'; stream = refl; paired = paired; unfinished = r.unfinished };
        })

  pub fill_next_segment-Opened :
      (self : Decryptor OpenState R) (e : SealState)
      → Ready e self
      → (fill_next_segment streams io self).0 ≡ ok tt
      → OpenedLast e self.aad (unread self) (fill_next_segment streams io self).1
        ⊎ OpenedNext e self.aad (unread self) (fill_next_segment streams io self).1
  fill_next_segment-Opened self e r h =
      let body = unread self in
      let got =
        read_up_to io segment_len segment_len 8192 (pending_bytes streams io self.pending)
          self.reader in
      let (p, q) =
        got_segment streams laws io sup self (take segment_len body) (drop segment_len body) body
          refl refl refl in
      elim (List-cases (drop segment_len body)) [
        | inl n ↦
            let whole : take segment_len body ≡ body =
              sym (append-nil (take segment_len body))
              ∙ ap (λ x. take segment_len body ++ x) (sym n)
              ∙ take-append-drop segment_len body in
            inl (
              filled_last self e body r (p ∙ ap ok whole) (probe_end body got.1 (q ∙ n))
                (omega (arith, ap length n, length-drop segment_len body)) h)
        | inr (b, bs, n) ↦
            let len : length (take segment_len body) ≡ segment_len =
              omega
                (arith, ap length n, length-drop segment_len body, length-take segment_len body) in
            let (byte, probed, kept) =
              probe_full streams laws io sup (take segment_len body) got.1 len
                (omega (arith, ap length (q ∙ n))) in
            inr (
              filled_next self e (take segment_len body) body byte r p probed len
                (sym (take-append-drop segment_len body)
                  ∙ ap (λ x. take segment_len body ++ x) (sym q ∙ sym kept))
                h)
      ]

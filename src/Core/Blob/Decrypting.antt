-- ===== src/Core/Blob/Decrypting.antt =====
-- The decryptor gives the text of a sealed body, whatever the reads ask for and get.
use scrigno.Prelude.{
  ℕ, ◌+◌, ◌<◌, ◌≤◌, ◌≡◌, refl, sym, ap, ◌∙◌, subst, Bool, true, false, Option, some, none, List, [],
  ◌∷◌, ◌++◌, length, take, drop, ltb, List-cases, ◌⊎◌, inl, inr, length-append, append_assoc,
  append-nil, take-append_exact, drop-append_exact, take-length_le, drop-length_le,
  eq-nil_of_length, All, ok, arith,
}
use scrigno.Prelude.Options.{>>=-eq-some}
use scrigno.Prelude.Bytes.{Bytes, join}
use scrigno.Core.Stream.{Stream, StreamLaws, Reader, Supplies, read_up_to}
use scrigno.Core.Blob.{
  Decryptor, chunk_size, tag_len, pending_bytes, probe, open_segment, fill_next_segment,
}
use scrigno.Core.Blob.Segments.{IsFull, seal_body}
use scrigno.Core.Blob.Reading.{read_up_to-take}

abbrev pub segment_len : ℕ
segment_len = chunk_size + tag_len

module _ {SealState OpenState R : Type 0} (streams : Stream SealState OpenState)
    (laws : StreamLaws streams) (io : Reader R) (sup : Supplies io) where
  -- The reader holds the sealed form of `text`.
  pub record Awaits (text : Bytes) (self : Decryptor OpenState R) : Type 0 where
    pub enc : SealState
    pub dec : OpenState
    pub chunks : List Bytes
    pub last : Bytes
    pub body : Bytes
    pub stream : self.stream ≡ some dec
    pub paired : laws.Paired enc dec
    pub full : All IsFull chunks
    pub short : length last < chunk_size
    pub whole : text ≡ join chunks ++ last
    pub sealed : seal_body streams self.aad enc chunks last ≡ some body
    pub left : pending_bytes streams io self.pending ++ sup.contents self.reader ≡ body
    pub unfinished : self.finished ≡ false

  -- What is still to come from the reader.
  abbrev pub Rest : Bytes → Decryptor OpenState R → Type 0
  Rest text self = ((self.finished ≡ true) × (text ≡ [])) ⊎ Awaits text self

  -- `text` is what the decryptor has still to give: what it holds, and the rest.
  pub record Remains (text : Bytes) (self : Decryptor OpenState R) : Type 0 where
    pub later : Bytes
    pub whole : text ≡ drop self.out_pos self.out_buf ++ later
    pub rest : Rest later self

  tag_of_last :
      (aad : Bytes) (e : SealState) (chunks : List Bytes) (last body : Bytes)
      → seal_body streams aad e chunks last ≡ some body
      → tag_len ≤ length body
  unfolding seal_body
  tag_of_last aad e [] last body h = omega (arith, laws.length-encrypt_last e aad last body h)
  tag_of_last aad e (c ∷ cs) last body h =
      let ((a, e'), p, q) = >>=-eq-some (streams.encrypt_next e aad c) _ h in
      let (b, r, t) = >>=-eq-some (seal_body streams aad e' cs last) _ q in
      let d : a ++ b ≡ body = cc in
      omega (arith, tag_of_last aad e' cs last b r, ap length d, length-append a b)

  pub fill_made :
      (self : Decryptor OpenState R) (ciphertext : Bytes) (last : Bool) (pending : Option ℕ)
      → (let got =
            read_up_to io segment_len segment_len 8192
              (pending_bytes streams io self.pending)
              self.reader in
          (got.0 ≡ ok ciphertext)
          → ((probe streams io ciphertext got.1).0 ≡ ok (last, pending))
          → fill_next_segment streams io self
            ≡ open_segment streams io last ciphertext
                (record self { reader = (probe streams io ciphertext got.1).1; pending = pending }))
  unfolding fill_next_segment
  fill_made self ciphertext last pending p q = rw (fill_next_segment, p, q) refl

  pub probe_short :
      (ciphertext : Bytes) (r : R)
      → length ciphertext < segment_len
      → probe streams io ciphertext r ≡ (ok (true, none), r)
  unfolding probe
  probe_short ciphertext r h =
      let e : ltb (length ciphertext) segment_len ≡ true = ground arith in rw (probe, e) refl

  -- A full segment with more behind it leaves the next byte pending.
  pub probe_full :
      (ciphertext : Bytes) (r : R)
      → length ciphertext ≡ segment_len
      → 0 < length (sup.contents r)
      → (byte : ℕ) × ((probe streams io ciphertext r).0 ≡ ok (false, some byte))
        × (byte ∷ sup.contents (probe streams io ciphertext r).1 ≡ sup.contents r)
  unfolding probe
  probe_full ciphertext r len more =
      let e : ltb (length ciphertext) segment_len ≡ false = ground arith in
      let (bytes, answer, split, most, some_read) = sup.reads 1 r in
      elim (List-cases bytes) [
        | inl n ↦ absurd (ground (arith, some_read, ap length n))
        | inr (b, bs, n) ↦
            let none_more : bs ≡ [] = eq-nil_of_length bs (omega (arith, most, ap length n)) in
            let one : bytes ≡ b ∷ [] = n ∙ ap (λ x. b ∷ x) none_more in
            (
              b,
              rw (probe, e, answer ∙ ap ok one) refl,
              rw (probe, e, answer ∙ ap ok one)
                  (sym (split ∙ ap (λ x. x ++ sup.contents (io.read 1 r).1) one)),
            )
      ]

  pub open_last :
      (ciphertext text : Bytes) (self : Decryptor OpenState R) (d : OpenState)
      → tag_len ≤ length ciphertext
      → self.stream ≡ some d
      → streams.decrypt_last d self.aad ciphertext ≡ some text
      → open_segment streams io true ciphertext self
        ≡ (ok tt, record self { stream = none; finished = true; out_buf = text; out_pos = 0 })
  unfolding open_segment
  open_last ciphertext text self d h s o =
      let e : ltb (length ciphertext) tag_len ≡ false = ground arith in simp (open_segment, e, s, o)

  pub open_next :
      (ciphertext text : Bytes) (self : Decryptor OpenState R) (d d' : OpenState)
      → tag_len ≤ length ciphertext
      → self.stream ≡ some d
      → streams.decrypt_next d self.aad ciphertext ≡ some (text, d')
      → open_segment streams io false ciphertext self
        ≡ (ok tt, record self { stream = some d'; out_buf = text; out_pos = 0 })
  unfolding open_segment
  open_next ciphertext text self d d' h s o =
      let e : ltb (length ciphertext) tag_len ≡ false = ground arith in simp (open_segment, e, s, o)

  -- What a call of `fill_next_segment` gives.
  pub record Filled (text : Bytes) (self : Decryptor OpenState R) : Type 0 where
    pub later : Bytes
    pub whole : text ≡ self.out_buf ++ later
    pub start : self.out_pos ≡ 0
    pub rest : Rest later self
    pub empty : length self.out_buf ≡ 0 → text ≡ []

  pending_le : (pending : Option ℕ) → length (pending_bytes streams io pending) ≤ 1
  pending_le none = omega arith
  pending_le (some b) = omega arith

  -- The segment that the loop gets and what it leaves, where the reader holds `body`.
  pub got_segment :
      (self : Decryptor OpenState R) (segment rest body : Bytes)
      → pending_bytes streams io self.pending ++ sup.contents self.reader ≡ body
      → take segment_len body ≡ segment
      → drop segment_len body ≡ rest
      → (let got =
            read_up_to io segment_len segment_len 8192
              (pending_bytes streams io self.pending)
              self.reader in
          (got.0 ≡ ok segment) × (sup.contents got.1 ≡ rest))
  got_segment self segment rest body left t d =
      let (p, q) =
        read_up_to-take io sup segment_len segment_len 8192 (pending_bytes streams io self.pending)
          self.reader (omega arith) (omega (arith, pending_le self.pending)) (omega arith) in
      (p ∙ ap ok (ap (take segment_len) left ∙ t), q ∙ ap (drop segment_len) left ∙ d)

  fill_last :
      (self : Decryptor OpenState R) (e : SealState) (d : OpenState) (last body : Bytes)
      → self.stream ≡ some d
      → laws.Paired e d
      → length last < chunk_size
      → streams.encrypt_last e self.aad last ≡ some body
      → pending_bytes streams io self.pending ++ sup.contents self.reader ≡ body
      → ((fill_next_segment streams io self).0 ≡ ok tt)
        × Filled last (fill_next_segment streams io self).1
  fill_last self e d last body s paired short sealed left =
      let len = laws.length-encrypt_last e self.aad last body sealed in
      let got =
        read_up_to io segment_len segment_len 8192 (pending_bytes streams io self.pending)
          self.reader in
      let (p, q) =
        got_segment self body [] body left (take-length_le segment_len body (omega (arith, len)))
          (drop-length_le segment_len body (omega (arith, len))) in
      let probed = probe_short body got.1 (omega (arith, len)) in
      let opened = laws.decrypt_last-encrypt_last e d self.aad last body paired sealed in
      let self' : Decryptor OpenState R = record self {
        reader = (probe streams io body got.1).1;
        pending = none;
      } in
      let done =
        fill_made self body true none p (ap (λ x. x.0) probed)
        ∙ open_last body last self' d (omega (arith, len)) s opened in
      (
        ap (λ x. x.0) done,
        subst (λ x. Filled last x.1) (sym done)
            (record {
              later = [];
              whole = sym (append-nil last);
              start = refl;
              rest = inl (refl, refl);
              empty = λ h. eq-nil_of_length last h;
            }),
      )

  fill_next :
      (self : Decryptor OpenState R) (e : SealState) (d : OpenState) (chunk : Bytes)
      (chunks : List Bytes) (last body : Bytes)
      → self.stream ≡ some d
      → laws.Paired e d
      → IsFull chunk
      → All IsFull chunks
      → length last < chunk_size
      → seal_body streams self.aad e (chunk ∷ chunks) last ≡ some body
      → pending_bytes streams io self.pending ++ sup.contents self.reader ≡ body
      → self.finished ≡ false
      → ((fill_next_segment streams io self).0 ≡ ok tt)
        × Filled (chunk ++ (join chunks ++ last)) (fill_next_segment streams io self).1
  unfolding seal_body
  fill_next self e d chunk chunks last body s paired full fulls short sealed left open_still =
      let ((a, e'), sealed_chunk, h) =
        >>=-eq-some (streams.encrypt_next e self.aad chunk) _ sealed in
      let (b, sealed_rest, t) = >>=-eq-some (seal_body streams self.aad e' chunks last) _ h in
      let parts : a ++ b ≡ body = cc in
      let len : length a ≡ segment_len =
        omega (arith, (laws.encrypt_next_steps e e' self.aad chunk a sealed_chunk).1, full) in
      let got =
        read_up_to io segment_len segment_len 8192 (pending_bytes streams io self.pending)
          self.reader in
      let (p, q) =
        got_segment self a b body left
          (ap (take segment_len) (sym parts) ∙ take-append_exact segment_len a b len)
          (ap (drop segment_len) (sym parts) ∙ drop-append_exact segment_len a b len) in
      let (byte, probed, kept) =
        probe_full a got.1 len
          (omega (arith, ap length q, tag_of_last self.aad e' chunks last b sealed_rest)) in
      let (d', opened, paired') =
        laws.decrypt_next-encrypt_next e e' d self.aad chunk a paired sealed_chunk in
      let self' : Decryptor OpenState R = record self {
        reader = (probe streams io a got.1).1;
        pending = some byte;
      } in
      let done =
        fill_made self a false (some byte) p probed
        ∙ open_next a chunk self' d d' (omega (arith, len)) s opened in
      (
        ap (λ x. x.0) done,
        subst (λ x. Filled (chunk ++ (join chunks ++ last)) x.1) (sym done)
            (record {
              later = join chunks ++ last;
              whole = refl;
              start = refl;
              rest = inr (record {
                enc = e';
                dec = d';
                chunks = chunks;
                last = last;
                body = b;
                stream = refl;
                paired = paired';
                full = fulls;
                short = short;
                whole = refl;
                sealed = sealed_rest;
                left = kept ∙ q;
                unfinished = open_still;
              });
              empty = λ z. absurd (omega (arith, full));
            }),
      )

  pub fill_next_segment-Filled :
      (text : Bytes) (self : Decryptor OpenState R)
      → Awaits text self
      → ((fill_next_segment streams io self).0 ≡ ok tt)
        × Filled text (fill_next_segment streams io self).1
  fill_next_segment-Filled text self w = elim (List-cases w.chunks) [
    | inl n ↦
        let sealed : streams.encrypt_last w.enc self.aad w.last ≡ some w.body =
          unfold seal_body in
          (ap (λ cs. seal_body streams self.aad w.enc cs w.last) (sym n) ∙ w.sealed) in
        let same : w.last ≡ text =
          unfold join in (ap (λ cs. join cs ++ w.last) (sym n) ∙ sym w.whole) in
        let (p, f) =
          fill_last self w.enc w.dec w.last w.body w.stream w.paired w.short sealed w.left in
        (p, subst (λ t. Filled t (fill_next_segment streams io self).1) same f)
    | inr (c, cs, n) ↦
        let fulls : All IsFull (c ∷ cs) = subst (All IsFull) n w.full in
        let sealed : seal_body streams self.aad w.enc (c ∷ cs) w.last ≡ some w.body =
          ap (λ x. seal_body streams self.aad w.enc x w.last) (sym n) ∙ w.sealed in
        let same : c ++ (join cs ++ w.last) ≡ text =
          unfold join in
          (sym (append_assoc c (join cs) w.last)
            ∙ ap (λ x. join x ++ w.last) (sym n)
            ∙ sym w.whole) in
        let (p, f) =
          fill_next self w.enc w.dec c cs w.last w.body w.stream w.paired fulls.0 fulls.1 w.short
            sealed w.left w.unfinished in
        (p, subst (λ t. Filled t (fill_next_segment streams io self).1) same f)
  ]

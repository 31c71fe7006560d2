-- ===== src/Core/Blob/Consuming.antt =====
-- `Decryptor::read` and a whole run of the decryptor.
use scrigno.Prelude.{
  ℕ, ◌+◌, ◌-◌, ◌<◌, ◌≤◌, ◌≡◌, refl, sym, ap, ◌∙◌, [], ◌++◌, length, take, drop, min, ltb, ◌==◌,
  Bool-cases, inl, inr, append_assoc, length-take, length-drop, take-append-drop, drop-drop,
  drop-length_le, eq-nil_of_length, Result, ok, arith,
}
use scrigno.Prelude.Bytes.{Bytes}
use scrigno.Core.Stream.{IoError, Stream, StreamLaws, Reader, Supplies}
use scrigno.Core.Blob.{Decryptor, fill_next_segment, copy_out, read}
use scrigno.Core.Blob.Decrypting.{Rest, Remains, fill_next_segment-Filled}

module _ {SealState OpenState R : Type 0} (streams : Stream SealState OpenState)
    (laws : StreamLaws streams) (io : Reader R) (sup : Supplies io) where
  Rest-copy :
      (text : Bytes) (self : Decryptor OpenState R) (k : ℕ)
      → Rest streams laws io sup text self
      → Rest streams laws io sup text (record self { out_pos = k })
  Rest-copy text self k (inl h) = inl h
  Rest-copy text self k (inr w) = inr (record {
    enc = w.enc;
    dec = w.dec;
    chunks = w.chunks;
    last = w.last;
    body = w.body;
    stream = w.stream;
    paired = w.paired;
    full = w.full;
    short = w.short;
    whole = w.whole;
    sealed = w.sealed;
    left = w.left;
    unfinished = w.unfinished;
  })

  -- What a call for `n` bytes gives, and what it leaves.
  pub record Given (n : ℕ) (text : Bytes) (answer : Result IoError Bytes)
      (self : Decryptor OpenState R) : Type 0 where
    pub bytes : Bytes
    pub text' : Bytes
    pub given : answer ≡ ok bytes
    pub remains : Remains streams laws io sup text' self
    pub whole : text ≡ bytes ++ text'
    pub most : length bytes ≤ n
    pub some_bytes : 0 < n → 0 < length text → 0 < length bytes

  copy_out-Given :
      (n : ℕ) (text later : Bytes) (self : Decryptor OpenState R)
      → self.out_pos < length self.out_buf
      → text ≡ drop self.out_pos self.out_buf ++ later
      → Rest streams laws io sup later self
      → Given n text (ok (copy_out streams io n self).0) (copy_out streams io n self).1
  unfolding copy_out
  copy_out-Given n text later self more whole rest =
      let available = drop self.out_pos self.out_buf in
      let taken = min (length available) n in
      let len : length available ≡ length self.out_buf - self.out_pos =
        length-drop self.out_pos self.out_buf in
      record {
        bytes = take taken available;
        text' = drop taken available ++ later;
        given = refl;
        remains = record {
          later = later;
          whole = ap (λ x. x ++ later) (drop-drop self.out_pos taken self.out_buf);
          rest = Rest-copy later self (self.out_pos + taken) rest;
        };
        whole =
            whole
            ∙ ap (λ x. x ++ later) (sym (take-append-drop taken available))
            ∙ append_assoc (take taken available) (drop taken available) later;
        most = omega (arith, length-take taken available);
        some_bytes = λ p q. omega (arith, length-take taken available, len);
      }

  pub read-Given :
      (n : ℕ) (text : Bytes) (self : Decryptor OpenState R)
      → Remains streams laws io sup text self
      → Given n text (read streams io n self).0 (read streams io n self).1
  unfolding read
  read-Given n text self r = elim (Bool-cases (ltb self.out_pos (length self.out_buf))) [
    | inl e ↦ simp (read, e) (copy_out-Given n text r.later self (ground arith) r.whole r.rest)
    | inr e ↦
        let none_held : drop self.out_pos self.out_buf ≡ [] =
          drop-length_le self.out_pos self.out_buf (ground arith) in
        let all : text ≡ r.later = r.whole ∙ ap (λ x. x ++ r.later) none_held in
        elim r.rest [
          | inl (f, z) ↦
              simp (read, e, f)
                (record {
                  bytes = [];
                  text' = [];
                  given = refl;
                  remains = record {
                    later = [];
                    whole = sym (ap (λ x. x ++ []) none_held);
                    rest = inl (f, refl);
                  };
                  whole = all ∙ z;
                  most = omega arith;
                  some_bytes = λ p q. absurd (omega (arith, ap length (all ∙ z)));
                })
          | inr w ↦
              let (p, f) = fill_next_segment-Filled streams laws io sup r.later self w in
              let self' = (fill_next_segment streams io self).1 in
              elim (Bool-cases (length self'.out_buf == 0)) [
                | inl z ↦
                    let held : self'.out_buf ≡ [] = eq-nil_of_length self'.out_buf (ground arith) in
                    let done : text ≡ [] = all ∙ f.empty (ground arith) in
                    simp (read, e, w.unfinished, p, z)
                      (record {
                        bytes = [];
                        text' = [];
                        given = refl;
                        remains = record {
                          later = f.later;
                          whole =
                              sym (all ∙ f.empty (ground arith))
                              ∙ all
                              ∙ f.whole
                              ∙ ap (λ k. drop k self'.out_buf ++ f.later) (sym f.start);
                          rest = f.rest;
                        };
                        whole = done;
                        most = omega arith;
                        some_bytes = λ a b. absurd (omega (arith, ap length done));
                      })
                | inr z ↦
                    simp (read, e, w.unfinished, p, z)
                      (copy_out-Given n text f.later self' (ground (arith, f.start))
                        (all ∙ f.whole ∙ ap (λ k. drop k self'.out_buf ++ f.later) (sym f.start))
                        f.rest)
              ]
        ]
  ]

-- ===== src/Core/Blob/Reading.antt =====
-- The loop that reads a segment, over a reader that does not fail.
use scrigno.Prelude.{
  ℕ, suc, zero, ◌+◌, ◌-◌, ◌<◌, ◌≤◌, ◌≡◌, refl, sym, ap, ◌∙◌, true, [], ◌∷◌, ◌++◌, length, take,
  drop, min, ltb, ◌==◌, Bool-cases, List-cases, inl, inr, length-append, append_assoc, append-nil,
  take-append_exact, drop-append_exact, take-length_le, drop-length_le, eq-nil_of_length, ok, arith,
}
use scrigno.Prelude.Bytes.{Bytes}
use scrigno.Core.Stream.{Reader, Supplies, read_up_to, read_exact}

module _ {R : Type 0} (io : Reader R) (sup : Supplies io) where
  -- The bytes that the loop gives and leaves.
  abbrev Splits : ℕ → ℕ → ℕ → Bytes → R → Type 0
  Splits fuel target limit held r =
      ((read_up_to io fuel target limit held r).0 ≡ ok (take target (held ++ sup.contents r)))
      × (sup.contents (read_up_to io fuel target limit held r).1
          ≡ drop target (held ++ sup.contents r))

  -- `target` bytes, or all that there are, whatever the reads give.
  pub read_up_to-take :
      (fuel target limit : ℕ) (held : Bytes) (r : R)
      → 0 < limit
      → length held ≤ target
      → target ≤ fuel + length held
      → Splits fuel target limit held r
  unfolding read_up_to
  read_up_to-take zero target limit held r pos le enough =
      let len : length held ≡ target = omega arith in
      (
        ap ok (sym (take-append_exact target held (sup.contents r) len)),
        sym (drop-append_exact target held (sup.contents r) len),
      )
  read_up_to-take (suc fuel) target limit held r pos le enough =
      elim (Bool-cases (ltb (length held) target)) [
        | inr e ↦
            let len : length held ≡ target = ground arith in
            (
              rw (read_up_to, e) (ap ok (sym (take-append_exact target held (sup.contents r) len))),
              rw (read_up_to, e) (sym (drop-append_exact target held (sup.contents r) len)),
            )
        | inl e ↦
            let more : length held < target = ground arith in
            let want = min (target - length held) limit in
            let (bytes, answer, split, most, some_read) = sup.reads want r in
            let r' = (io.read want r).1 in
            elim (List-cases bytes) [
              | inl n ↦
                  let none_left : sup.contents r ≡ [] =
                    eq-nil_of_length (sup.contents r) (ground (arith, some_read, ap length n)) in
                  let same : sup.contents r' ≡ [] =
                    sym (split ∙ ap (λ b. b ++ sup.contents r') n) ∙ none_left in
                  let short : length (held ++ []) ≤ target = omega (arith, length-append held []) in
                  (
                    rw (read_up_to, e, answer ∙ ap ok n, none_left)
                        (ap ok
                          (sym (append-nil held) ∙ sym (take-length_le target (held ++ []) short))),
                    rw (read_up_to, e, answer ∙ ap ok n, none_left)
                        (same ∙ sym (drop-length_le target (held ++ []) short)),
                  )
              | inr (b, bs, n) ↦
                  let size : length (held ++ b ∷ bs) ≤ target =
                    omega (arith, length-append held (b ∷ bs), most, ap length n) in
                  let (p, q) =
                    read_up_to-take fuel target limit (held ++ b ∷ bs) r' pos size
                      (omega (arith, length-append held (b ∷ bs))) in
                  let all : (held ++ b ∷ bs) ++ sup.contents r' ≡ held ++ sup.contents r =
                    append_assoc held (b ∷ bs) (sup.contents r')
                    ∙ ap (λ x. held ++ x) (sym (split ∙ ap (λ x. x ++ sup.contents r') n)) in
                  (
                    rw (read_up_to, e, answer ∙ ap ok n) (p ∙ ap (λ x. ok (take target x)) all),
                    rw (read_up_to, e, answer ∙ ap ok n) (q ∙ ap (drop target) all),
                  )
            ]
      ]

  -- `read_exact` gives the first bytes of a reader that has them.
  pub read_exact-take :
      (n : ℕ) (first rest : Bytes) (r : R)
      → 0 < n
      → length first ≡ n
      → sup.contents r ≡ first ++ rest
      → ((read_exact io n r).0 ≡ ok first) × (sup.contents (read_exact io n r).1 ≡ rest)
  unfolding read_exact
  read_exact-take n first rest r pos len all =
      let (p, q) = read_up_to-take n n n [] r pos (omega arith) (omega arith) in
      let got : take n (sup.contents r) ≡ first =
        ap (take n) all ∙ take-append_exact n first rest len in
      let left : drop n (sup.contents r) ≡ rest =
        ap (drop n) all ∙ drop-append_exact n first rest len in
      let whole : length first == n ≡ true = ground arith in
      (rw (read_exact, p ∙ ap ok got, whole) refl, rw (read_exact, p ∙ ap ok got, whole) (q ∙ left))

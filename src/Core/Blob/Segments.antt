-- ===== src/Core/Blob/Segments.antt =====
-- What a blob is, independently of how it is written and read: full chunks sealed in turn, then the
-- rest sealed as the last segment.
use scrigno.Prelude.{
  ◌<◌, ◌≡◌, refl, sym, ap, ◌∙◌, Option, some, List, [], ◌∷◌, ◌++◌, length, length-append,
  append_assoc, append-nil, append_inj, All, arith,
}
use scrigno.Prelude.Options.{◌>>=◌, >>=-eq-some, some-eq-some}
use scrigno.Prelude.Bytes.{Bytes, join}
use scrigno.Core.Stream.{Stream}
use scrigno.Core.Blob.{chunk_size}

abbrev pub IsFull : Bytes → Type 0
IsFull chunk = length chunk ≡ chunk_size

module _ {SealState OpenState : Type 0} (streams : Stream SealState OpenState) (aad : Bytes) where
  unfoldable pub seal_chunks : SealState → List Bytes → Option (Bytes × SealState)
  seal_chunks e [] = some ([], e)
  seal_chunks e (chunk ∷ chunks) = do
    (sealed, e') ← streams.encrypt_next e aad chunk
    (rest, e'') ← seal_chunks e' chunks
    some (sealed ++ rest, e'')

  unfoldable pub seal_body : SealState → List Bytes → Bytes → Option Bytes
  unfolding seal_chunks
  seal_body e [] last = streams.encrypt_last e aad last
  seal_body e (chunk ∷ chunks) last = do
    (sealed, e') ← streams.encrypt_next e aad chunk
    rest ← seal_body e' chunks last
    some (sealed ++ rest)

  -- `body` is the sealed form of `text` from the state `e` on.
  pub record Seals (e : SealState) (text body : Bytes) : Type 0 where
    pub chunks : List Bytes
    pub last : Bytes
    pub full : All IsFull chunks
    pub short : length last < chunk_size
    pub whole : text ≡ join chunks ++ last
    pub sealed : seal_body e chunks last ≡ some body

  -- One more chunk at the end.
  pub seal_chunks-snoc :
      (e e' e'' : SealState) (chunks : List Bytes) (chunk done sealed : Bytes)
      → seal_chunks e chunks ≡ some (done, e')
      → streams.encrypt_next e' aad chunk ≡ some (sealed, e'')
      → seal_chunks e (chunks ++ chunk ∷ []) ≡ some (done ++ sealed, e'')
  unfolding seal_chunks
  seal_chunks-snoc e e' e'' [] chunk done sealed h n =
      let d : [] ≡ done = cc in
      let s : e ≡ e' = cc in rw (s, n, ← d) (ap (λ x. some (x, e'')) (append-nil sealed))
  seal_chunks-snoc e e' e'' (c ∷ chunks) chunk done sealed h n =
      let ((a, e1), p, q) = >>=-eq-some (streams.encrypt_next e aad c) _ h in
      let ((b, e2), r, t) = >>=-eq-some (seal_chunks e1 chunks) _ q in
      let d : a ++ b ≡ done = cc in
      let s : e2 ≡ e' = cc in
      rw (p, seal_chunks-snoc e1 e' e'' chunks chunk b sealed (r ∙ ap (λ x. some (b, x)) s) n, ← d)
        (ap (λ x. some (x, e'')) (sym (append_assoc a b sealed)))

  -- Chunks and a last segment make the whole body.
  pub seal_body-seal_chunks :
      (e e' : SealState) (chunks : List Bytes) (last done sealed : Bytes)
      → seal_chunks e chunks ≡ some (done, e')
      → streams.encrypt_last e' aad last ≡ some sealed
      → seal_body e chunks last ≡ some (done ++ sealed)
  unfolding seal_chunks seal_body
  seal_body-seal_chunks e e' [] last done sealed h n =
      let d : [] ≡ done = cc in let s : e ≡ e' = cc in rw (s, ← d) n
  seal_body-seal_chunks e e' (c ∷ chunks) last done sealed h n =
      let ((a, e1), p, q) = >>=-eq-some (streams.encrypt_next e aad c) _ h in
      let ((b, e2), r, t) = >>=-eq-some (seal_chunks e1 chunks) _ q in
      let d : a ++ b ≡ done = cc in
      let s : e2 ≡ e' = cc in
      rw (p, seal_body-seal_chunks e1 e' chunks last b sealed (r ∙ ap (λ x. some (b, x)) s) n, ← d)
        (ap some (sym (append_assoc a b sealed)))

-- A text is cut into full chunks and a shorter rest in one way only.
pub cut_unique :
    (cs ds : List Bytes) (l m : Bytes)
    → All IsFull cs
    → All IsFull ds
    → length l < chunk_size
    → length m < chunk_size
    → join cs ++ l ≡ join ds ++ m
    → (cs ≡ ds) × (l ≡ m)
unfolding join
cut_unique [] [] l m _ _ _ _ e = (refl, e)
cut_unique [] (d ∷ ds) l m _ h hl _ e =
    absurd
      (omega (arith, h.0, ap length e, length-append (d ++ join ds) m, length-append d (join ds)))
cut_unique (c ∷ cs) [] l m h _ _ hm e =
    absurd
      (omega (arith, h.0, ap length e, length-append (c ++ join cs) l, length-append c (join cs)))
cut_unique (c ∷ cs) (d ∷ ds) l m h k hl hm e =
    let (a, b) =
      append_inj c d (h.0 ∙ sym k.0)
        (sym (append_assoc c (join cs) l) ∙ e ∙ append_assoc d (join ds) m) in
    let (p, q) = cut_unique cs ds l m h.1 k.1 hl hm b in (cc (a, p), q)

module _ {SealState OpenState : Type 0} (streams : Stream SealState OpenState) (aad : Bytes) where
  -- So a text has one sealed form only.
  pub Seals-unique :
      (e : SealState) (text body body' : Bytes)
      → Seals streams aad e text body
      → Seals streams aad e text body'
      → body ≡ body'
  Seals-unique e text body body' s t =
      let (p, q) =
        cut_unique s.chunks t.chunks s.last t.last s.full t.full s.short t.short
          (sym s.whole ∙ t.whole) in
      some-eq-some (sym s.sealed ∙ (λ i. seal_body streams aad e (p i) (q i)) ∙ t.sealed)

-- ===== src/Server/Changes/Shrinking.antt =====
-- A page that is not the last leaves fewer changed rows, also where sequence numbers coincide.
use scrigno.Prelude.{
  ℕ, zero, suc, ◌≤◌, ◌<◌, ◌≡◌, true, List, [], ◌∷◌, length, take, ltb, if◌then◌else◌, Bool-cases,
  inl, inr, All, arith,
}
use Prim.Native.String.{String}
use scrigno.Server.{DocumentRecord, Db, bad_request}
use scrigno.Prelude.Integers.{pos, max_zero}
use scrigno.Prelude.{refl, some, ok, err, ◌⊎◌}
use scrigno.Server.Changes.{
  max_limit, checked_limit, list_changes, insert_by_seq, changed_after, last_seq, page,
}

-- How many rows are changed after `c`.
unfoldable pub changed_count : ℕ → List DocumentRecord → ℕ
changed_count c [] = 0
changed_count c (d ∷ ds) =
    let rest = changed_count c ds in if ltb c d.server_seq then suc rest else rest

changed_count_mono :
    (c e : ℕ) (ds : List DocumentRecord) → c ≤ e → changed_count e ds ≤ changed_count c ds
unfolding changed_count
changed_count_mono c e [] h = omega arith
changed_count_mono c e (d ∷ ds) h = let ih = changed_count_mono c e ds h in ground arith

-- A row that is changed after `c` is not changed after itself.
Hit : ℕ → List DocumentRecord → DocumentRecord → Type 0
Hit c ds d = c < d.server_seq → changed_count d.server_seq ds < changed_count c ds

Hit-cons :
    (c : ℕ) (d0 d : DocumentRecord) (ds : List DocumentRecord) → Hit c ds d → Hit c (d0 ∷ ds) d
unfolding changed_count Hit
Hit-cons c d0 d ds h p = let ih = h p in ground arith

All-Hit-cons :
    (c : ℕ) (d0 : DocumentRecord) (ds es : List DocumentRecord)
    → All (Hit c ds) es
    → All (Hit c (d0 ∷ ds)) es
All-Hit-cons c d0 ds [] h = tt
All-Hit-cons c d0 ds (e ∷ es) (h, hs) = (Hit-cons c d0 e ds h, All-Hit-cons c d0 ds es hs)

All-Hit : (c : ℕ) (ds : List DocumentRecord) → All (Hit c ds) ds
unfolding changed_count Hit
All-Hit c [] = tt
All-Hit c (d ∷ ds) = (
  (λ p. let m = changed_count_mono c d.server_seq ds (omega arith) in ground arith),
  All-Hit-cons c d ds ds (All-Hit c ds),
)

module _ (P : DocumentRecord → Type 0) where
  All-insert_by_seq :
      (d : DocumentRecord) (es : List DocumentRecord) → P d → All P es → All P (insert_by_seq d es)
  unfolding insert_by_seq
  All-insert_by_seq d [] h hs = (h, tt)
  All-insert_by_seq d (e ∷ es) h (p, ps) = elim (Bool-cases (ltb d.server_seq e.server_seq)) [
    | inl t ↦ rw t (h, (p, ps))
    | inr t ↦ rw t (p, All-insert_by_seq d es h ps)
  ]

  All-changed_after :
      (c : ℕ) (ds : List DocumentRecord)
      → All (λ d. c < d.server_seq → P d) ds
      → All P (changed_after c ds)
  unfolding changed_after
  All-changed_after c [] hs = tt
  All-changed_after c (d ∷ ds) (h, hs) = elim (Bool-cases (ltb c d.server_seq)) [
    | inl t ↦
        rw t
          (All-insert_by_seq d (changed_after c ds) (h (ground arith)) (All-changed_after c ds hs))
    | inr t ↦ rw t (All-changed_after c ds hs)
  ]

All-last_seq :
    (P : ℕ → Type 0) (c n : ℕ) (ds : List DocumentRecord)
    → All (λ d. P d.server_seq) ds
    → n < length ds
    → P (last_seq c (take (suc n) ds))
unfolding last_seq
All-last_seq P c n [] hs h = absurd (omega arith)
All-last_seq P c zero (d ∷ ds) (p, ps) h = p
All-last_seq P c (suc n) (d ∷ []) (p, ps) h = absurd (omega arith)
All-last_seq P c (suc n) (d ∷ e ∷ ds) (p, ps) h =
    All-last_seq P d.server_seq n (e ∷ ds) ps (omega arith)

All-take :
    (P : DocumentRecord → Type 0) (n : ℕ) (ds : List DocumentRecord) → All P ds → All P (take n ds)
All-take P zero ds hs = tt
All-take P (suc n) [] hs = tt
All-take P (suc n) (d ∷ ds) (h, hs) = (h, All-take P n ds hs)

-- Where a page says that there is more, its cursor has fewer rows after it.
pub page-shrinks :
    (since limit : ℕ) (ds : List DocumentRecord)
    → 1 ≤ limit
    → (page since limit ds).has_more ≡ true
    → changed_count (page since limit ds).next_since ds < changed_count since ds
unfolding page Hit
page-shrinks since zero ds positive h = absurd (omega arith)
page-shrinks since (suc n) ds positive h =
    let fetched = take (suc (suc n)) (changed_after since ds) in
    let P : DocumentRecord → Type 0 = λ d. changed_count d.server_seq ds < changed_count since ds in
    let all =
      All-take P (suc (suc n)) (changed_after since ds)
        (All-changed_after P since ds (All-Hit since ds)) in
    rw (page, h)
      (All-last_seq (λ k. changed_count k ds < changed_count since ds) since n fetched all
        (ground arith))

-- A request of a cursor that is not negative is answered where its limit is from 1 to 500.
pub list_changes-cases :
    (since limit : ℕ) (db : Db)
    → ((message : String) × (list_changes (some (pos since)) (some (pos limit)) db
          ≡ err (bad_request message)))
      ⊎ ((list_changes (some (pos since)) (some (pos limit)) db
            ≡ ok (page since limit db.documents))
          × (1 ≤ limit))
unfolding list_changes
list_changes-cases since zero db =
    inl ("limit must be between 1 and 500", unfold checked_limit in refl)
list_changes-cases since (suc n) db = elim (Bool-cases (ltb max_limit (suc n))) [
  | inl t ↦ inl (
    "limit must be between 1 and 500",
    unfold checked_limit max_zero in rw (list_changes, t) refl,
  )
  | inr t ↦ inr (unfold checked_limit max_zero in rw (list_changes, t) refl, omega arith)
]

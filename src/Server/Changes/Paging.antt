-- ===== src/Server/Changes/Paging.antt =====
-- Following the feed from page to page.
use scrigno.Prelude.{
  ℕ, zero, suc, ◌≡◌, ◌≢◌, ◌≤◌, ◌<◌, refl, List, [], ◌∷◌, ◌++◌, ltb, if◌then◌else◌, take, drop,
  length, length-take, length-drop, take-take-suc, take-length_le, take-append-drop, arith, ap, ◌∙◌,
  sym,
}
use scrigno.Server.{DocumentRecord}
use scrigno.Server.Invariant.{Fresh, Distinct}
use scrigno.Server.Changes.{insert_by_seq, changed_after, last_seq, page}

-- Strictly ascending by sequence number, from above `low`.
pub Ascending : ℕ → List DocumentRecord → Type 0
Ascending low [] = Unit
Ascending low (d ∷ ds) = (low < d.server_seq) × Ascending d.server_seq ds

insert_by_seq-Ascending :
    (low : ℕ) (d : DocumentRecord) (es : List DocumentRecord)
    → low < d.server_seq
    → Fresh d.server_seq es
    → Ascending low es
    → Ascending low (insert_by_seq d es)
unfolding insert_by_seq Fresh Ascending
insert_by_seq-Ascending low d [] h f a = ground arith
insert_by_seq-Ascending low d (e ∷ es) h f a =
    ground (arith, insert_by_seq-Ascending e.server_seq d es)

insert_by_seq-Fresh :
    (n : ℕ) (d : DocumentRecord) (es : List DocumentRecord)
    → d.server_seq ≢ n
    → Fresh n es
    → Fresh n (insert_by_seq d es)
unfolding insert_by_seq Fresh
insert_by_seq-Fresh n d [] h f = ground arith
insert_by_seq-Fresh n d (e ∷ es) h f = ground (arith, insert_by_seq-Fresh n d es)

changed_after-Fresh :
    (n since : ℕ) (ds : List DocumentRecord) → Fresh n ds → Fresh n (changed_after since ds)
unfolding changed_after Fresh
changed_after-Fresh n since [] f = f
changed_after-Fresh n since (d ∷ ds) f =
    ground (arith, changed_after-Fresh n since ds, insert_by_seq-Fresh n d (changed_after since ds))

-- The rows that a page is cut from are in strictly ascending order, all above the cursor.
changed_after-Ascending :
    (since : ℕ) (ds : List DocumentRecord) → Distinct ds → Ascending since (changed_after since ds)
unfolding changed_after Distinct Ascending
changed_after-Ascending since [] h = h
changed_after-Ascending since (d ∷ ds) h = ground (
  arith,
  changed_after-Ascending since ds,
  changed_after-Fresh d.server_seq since ds,
  insert_by_seq-Ascending since d (changed_after since ds),
)

-- The rows of `ds` above `c`, in the order of `ds`.
above : ℕ → List DocumentRecord → List DocumentRecord
above c [] = []
above c (d ∷ ds) = if ltb c d.server_seq then d ∷ above c ds else above c ds

above-insert_by_seq :
    (c : ℕ) (d : DocumentRecord) (es : List DocumentRecord)
    → above c (insert_by_seq d es)
      ≡ (if ltb c d.server_seq then insert_by_seq d (above c es) else above c es)
unfolding above insert_by_seq
above-insert_by_seq c d [] = ground arith
above-insert_by_seq c d (e ∷ es) = ground (arith, above-insert_by_seq c d es)

above-changed_after :
    (since c : ℕ) (ds : List DocumentRecord)
    → since ≤ c
    → above c (changed_after since ds) ≡ changed_after c ds
unfolding above changed_after
above-changed_after since c [] h = refl
above-changed_after since c (d ∷ ds) h =
    ground (arith, above-changed_after since c ds, above-insert_by_seq c d (changed_after since ds))

above-Ascending :
    (c low : ℕ) (ds : List DocumentRecord) → c ≤ low → Ascending low ds → above c ds ≡ ds
unfolding above Ascending
above-Ascending c low [] h a = refl
above-Ascending c low (d ∷ ds) h a = ground (arith, above-Ascending c d.server_seq ds)

last_seq-take_le :
    (n low : ℕ) (ds : List DocumentRecord) → Ascending low ds → low ≤ last_seq low (take n ds)
unfolding last_seq Ascending
last_seq-take_le zero low ds a = omega arith
last_seq-take_le (suc n) low [] a = omega arith
last_seq-take_le (suc n) low (d ∷ ds) a = ground (arith, last_seq-take_le n d.server_seq ds)

above-last_seq :
    (n low : ℕ) (ds : List DocumentRecord)
    → Ascending low ds
    → above (last_seq low (take n ds)) ds ≡ drop n ds
unfolding above last_seq Ascending
above-last_seq zero low ds a = above-Ascending low low ds (omega arith) a
above-last_seq (suc n) low [] a = refl
above-last_seq (suc n) low (d ∷ ds) a =
    ground (arith, above-last_seq n d.server_seq ds, last_seq-take_le n d.server_seq ds)

-- A page is the first `limit` rows after the cursor, has more exactly where there are more than
-- that, and its cursor is the last row's number, or the old one where there is no row.
pub page-changed_after :
    (since limit : ℕ) (ds : List DocumentRecord)
    → page since limit ds ≡ (
        let rows = changed_after since ds in
        record {
          items = take limit rows;
          next_since = last_seq since (take limit rows);
          has_more = ltb limit (length rows);
        })
unfolding page
page-changed_after since limit ds = ground (
  arith,
  length-take (suc limit) (changed_after since ds),
  take-take-suc limit (changed_after since ds),
  take-length_le limit (changed_after since ds),
  take-length_le (suc limit) (changed_after since ds),
)

-- Where a page stops, the next one starts: the rows after its cursor are those that the page left.
-- The sequence numbers are distinct.
pub changed_after-next_since :
    (since limit : ℕ) (ds : List DocumentRecord)
    → Distinct ds
    → changed_after (page since limit ds).next_since ds ≡ drop limit (changed_after since ds)
changed_after-next_since since limit ds h =
    let a = changed_after-Ascending since ds h in
    rw (page-changed_after since limit ds) (
      sym (
        above-changed_after since (last_seq since (take limit (changed_after since ds))) ds
          (last_seq-take_le limit since (changed_after since ds) a))
      ∙ above-last_seq limit since (changed_after since ds) a)

-- A client that follows the feed: at most `fuel` pages, each from the cursor of the one before.
unfoldable pub follow : ℕ → ℕ → ℕ → List DocumentRecord → List DocumentRecord
follow zero since limit ds = []
follow (suc fuel) since limit ds =
    let p = page since limit ds in
    let rest = follow fuel p.next_since limit ds in if p.has_more then p.items ++ rest else p.items

-- A client that follows the feed from a cursor, page by page, gets every row changed after it,
-- each once and in the order of the sequence numbers, whatever the limit is, from 1; more pages
-- than there are rows are fuel enough. The sequence numbers are distinct.
pub follow-changed_after :
    (fuel since limit : ℕ) (ds : List DocumentRecord)
    → Distinct ds
    → 1 ≤ limit
    → length (changed_after since ds) < fuel
    → follow fuel since limit ds ≡ changed_after since ds
unfolding follow
follow-changed_after zero since limit ds h l f = absurd (omega arith)
follow-changed_after (suc fuel) since limit ds h l f = ground (
  arith,
  ap (λ p. p.items) (page-changed_after since limit ds),
  ap (λ p. p.has_more) (page-changed_after since limit ds),
  follow-changed_after fuel (page since limit ds).next_since limit ds,
  changed_after-next_since since limit ds h,
  length-drop limit (changed_after since ds),
  take-append-drop limit (changed_after since ds),
  take-length_le limit (changed_after since ds),
)

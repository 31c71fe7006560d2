-- ===== src/Server/Changes.antt =====
-- routes/changes.rs: the feed of changed documents, and the pages that a client follows.
pub mod Paging
pub mod Shrinking
use mathlib.Core.Option
use scrigno.Prelude.{
  ℕ, suc, ◌+◌, ◌≡◌, Bool, true, false, Option, none, some, List, [], ◌∷◌, ltb, if◌then◌else◌,
  Result, ok, err, take, length,
}
use scrigno.Prelude.Integers.{ℤ, pos, negsuc, max_zero}
use scrigno.Server.{DocumentRecord, Db, ApiError, bad_request}

abbrev pub default_limit : ℤ
default_limit = pos 100

abbrev pub max_limit : ℕ
max_limit = 500

pub record ChangesPage : Type 0 where
  pub items : List DocumentRecord
  pub next_since : ℕ
  pub has_more : Bool

-- `ORDER BY server_seq ASC`, one row at a time.
insert_by_seq : DocumentRecord → List DocumentRecord → List DocumentRecord
insert_by_seq d [] = d ∷ []
insert_by_seq d (e ∷ es) =
    if ltb d.server_seq e.server_seq then d ∷ e ∷ es else e ∷ insert_by_seq d es

-- The rows with `server_seq > since`, in that order.
unfoldable pub changed_after : ℕ → List DocumentRecord → List DocumentRecord
unfolding insert_by_seq
changed_after since [] = []
changed_after since (d ∷ ds) =
    let rest = changed_after since ds in
    if ltb since d.server_seq then insert_by_seq d rest else rest

-- `items.last().map_or(since, |item| item.server_seq)`.
pub last_seq : ℕ → List DocumentRecord → ℕ
last_seq since [] = since
last_seq since (d ∷ ds) = last_seq d.server_seq ds

unfoldable pub page : ℕ → ℕ → List DocumentRecord → ChangesPage
unfolding changed_after last_seq
page since limit documents =
    let fetched = take (suc limit) (changed_after since documents) in
    let has_more = ltb limit (length fetched) in
    let items = if has_more then take limit fetched else fetched in
    record { items = items; next_since = last_seq since items; has_more = has_more }

-- The limit of a request: from 1 to 500.
checked_limit : ℤ → Option ℕ
checked_limit (pos (suc n)) = if ltb max_limit (suc n) then none else some (suc n)
checked_limit _ = none

pub list_changes : Option ℤ → Option ℤ → Db → Result ApiError ChangesPage
unfolding max_zero checked_limit page
list_changes since limit db = elim (checked_limit (Option.get_or limit default_limit)) [
  | none ↦ err (bad_request "limit must be between 1 and 500")
  | some n ↦ ok (page (max_zero (Option.get_or since (pos 0))) n db.documents)
]

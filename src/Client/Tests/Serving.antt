-- ===== src/Client/Tests/Serving.antt =====
-- A pull from a server with two rows: pages are printed as their numbers.
use scrigno.Prelude.{
  ℕ, zero, suc, ◌+◌, ◌≡◌, refl, Bool, true, false, Option, none, some, List, [], ◌∷◌, ◌++◌, length,
  take, drop, take-append_exact, drop-append_exact, arith,
}
use scrigno.Prelude.Options.{◌>>=◌}
use scrigno.Prelude.Bytes.{Bytes, same_bytes}
use scrigno.Core.Tests.{toy_aead}
use scrigno.Server.{DocumentRecord}
use scrigno.Server.Changes.{ChangesPage}
use scrigno.Server.Changes.Shrinking.{changed_count}
use scrigno.Client.{Outcome}
use scrigno.Client.Vault.{UnlockedVault}
use scrigno.Client.Vault.Edit.{Draws}
use scrigno.Client.Sync.Rounds.{Pulled, pull}
use scrigno.Client.Http.{Wire}
use scrigno.Client.Sync.{cursor_of}
use scrigno.Client.Store.{kv_get}
use mathlib.Core.Option
use scrigno.Client.Served.{Printer, Served, Site}
use scrigno.Client.Served.Dwindles.{served_environment, pull-Ends_served}
use scrigno.Client.Tests.{titled_json, draws_of, vault, writer}
use scrigno.Client.Tests.Syncing.{reader, other_item}

abbrev number_of : Option ℕ → ℕ
number_of none = 0
number_of (some n) = suc n

abbrev option_of : ℕ → Option ℕ
option_of zero = none
option_of (suc n) = some n

option_of-number_of : (o : Option ℕ) → option_of (number_of o) ≡ o
option_of-number_of none = refl
option_of-number_of (some n) = refl

abbrev bit : Bool → ℕ
bit false = 0
bit true = 1

abbrev flag : ℕ → Bool
flag zero = false
flag (suc n) = true

flag-bit : (b : Bool) → flag (bit b) ≡ b
flag-bit false = refl
flag-bit true = refl

abbrev print_rows : List DocumentRecord → Bytes
print_rows [] = []
print_rows (d ∷ ds) =
    d.id
    ∷ d.version
    ∷ number_of d.blob_id
    ∷ d.blob_size
    ∷ bit d.deleted
    ∷ d.server_seq
    ∷ d.updated_at
    ∷ length d.enc_meta
    ∷ (d.enc_meta ++ print_rows ds)

abbrev parse_rows : ℕ → Bytes → Option (List DocumentRecord)
parse_rows zero bytes = some []
parse_rows (suc n) (a ∷ b ∷ c ∷ d ∷ e ∷ f ∷ g ∷ h ∷ rest) = do
  rows ← parse_rows n (drop h rest)
  some (
      (record {
        id = a;
        version = b;
        blob_id = option_of c;
        blob_size = d;
        enc_meta = take h rest;
        deleted = flag e;
        server_seq = f;
        updated_at = g;
      })
      ∷ rows)
parse_rows _ _ = none

parse_rows-print_rows :
    (ds : List DocumentRecord) → parse_rows (length ds) (print_rows ds) ≡ some ds
parse_rows-print_rows [] = refl
parse_rows-print_rows (d ∷ ds) =
    rw
      (
        drop-append_exact (length d.enc_meta) d.enc_meta (print_rows ds) refl,
        take-append_exact (length d.enc_meta) d.enc_meta (print_rows ds) refl,
        parse_rows-print_rows ds,
        option_of-number_of d.blob_id,
        flag-bit d.deleted,
      )
      refl

abbrev print_page : ChangesPage → Bytes
print_page p = p.next_since ∷ bit p.has_more ∷ length p.items ∷ print_rows p.items

abbrev parse_page : Bytes → Option ChangesPage
parse_page (next ∷ more ∷ n ∷ rest) = do
  items ← parse_rows n rest
  some (record { items = items; next_since = next; has_more = flag more })
parse_page _ = none

parse_page-print_page : (p : ChangesPage) → parse_page (print_page p) ≡ some p
parse_page-print_page p = rw (parse_rows-print_rows p.items, flag-bit p.has_more) refl

abbrev wire : Wire
wire = record {
  parse_vault = λ text. none;
  parse_keyslot = λ text. none;
  parse_page = parse_page;
  parse_record = λ text. none;
  parse_blob = λ text. none;
  parse_error = λ text. some text;
}

abbrev printer : Printer
printer = record {
  print_vault = λ v. [];
  print_keyslot = λ slot. [];
  print_page = print_page;
  print_record = λ d. [];
  print_blob = λ answer. [];
  print_error = λ text. text;
}

abbrev settings : Site
settings = record {
  digest = record { Hasher = ℕ; new = 0; update = λ n c. n + length c; finalize = λ n. n ∷ [] };
  max_blob_bytes = 1000;
  is_object = λ text. true;
  outside = λ now. record { opens = true; calls_left = 9; completes = true; now = now };
}

abbrev at_rest : Served ℕ
at_rest = record {
  state = record {
    db = record {
      vault = none;
      keyslots = [];
      blobs = [];
      documents = other_item ∷ record other_item { id = 12; server_seq = 6 } ∷ [];
      next_seq = 7;
    };
    objects = [];
  };
  now = 100;
  seed = 0;
}

abbrev next_draws : ℕ → Draws × ℕ
next_draws n = (draws_of (20 + n), n + 1)

pull-Ends_served_example :
    (o : Outcome Pulled (UnlockedVault × Served ℕ)) × (pull toy_aead titled_json
        (served_environment wire printer settings (λ bytes. bytes) next_draws)
        reader
        writer
        3
        (vault, at_rest)
      ≡ some o)
unfolding changed_count cursor_of kv_get Option.bind same_bytes
pull-Ends_served_example =
    pull-Ends_served wire printer settings (λ bytes. bytes) next_draws parse_page-print_page
      toy_aead titled_json reader writer 3 vault at_rest (omega arith)

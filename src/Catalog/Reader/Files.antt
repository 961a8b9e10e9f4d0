-- ===== src/Catalog/Reader/Files.antt =====
-- `list_data_files` of reader.rs against the index of files by snapshot.
use slateduck.Prelude.{
  ℕ, ◌≡◌, refl, ap, ◌∙◌, subst, ◌↔◌, inl, inr, Bool, true, false, not, Option, none, some, List, [],
  ◌∷◌, All, IsIn, Bool-cases, arith,
}
use slateduck.Prelude.Bytes.{Bytes, bytes_eq, bytes_eq_iff, bytes_lt, bytes_lt_trans}
use slateduck.Core.Result.{ok, map_err, value, ok_injective, >>=-eq-ok}
use slateduck.Core.Values.{decode_value}
use slateduck.Core.Rows.{Codecs, DataFileRow}
use slateduck.Core.Keys.Prefixes.{
  prefix_data_files_by_snapshot_for_table, prefix_data_files_by_snapshot_upper,
}
use slateduck.Catalog.Kv.{Kv, Pair, lookup, IsSorted}
use slateduck.Catalog.Reader.{ended_by, below, files_loop, file_key, list_data_files}
use slateduck.Catalog.Reader.Listing.{Under, scanned}
use slateduck.Catalog.Reader.Order.{Ascends, sort-IsIn, sort-Ascends}
use slateduck.Catalog.Reader.Scan.{
  map_err-eq-ok, lookup_first, lookup_later, lookup_cases, later_key_differs, keep_row-eq-ok,
  IsIn-kept, kept_cases,
}

pub later_key_above :
    (j k v : Bytes) (l : List Pair)
    → All (λ e. bytes_lt j e.0 ≡ true) l
    → lookup k l ≡ some v
    → bytes_lt j k ≡ true
unfolding lookup
later_key_above j k v [] h g = cc
later_key_above j k v ((i, w) ∷ l) h g = elim (Bool-cases (bytes_eq i k)) [
  | inl same ↦ cc (h.0, (bytes_eq_iff i k).0 same)
  | inr other ↦ later_key_above j k v l h.1 (rw other at g)
]

below_earlier :
    (j k : Bytes) (upper : Option Bytes)
    → bytes_lt j k ≡ true
    → below k upper ≡ true
    → below j upper ≡ true
unfolding below
below_earlier j k none h b = refl
below_earlier j k (some u) h b = bytes_lt_trans j k u h b

module _ (codecs : Codecs) where
  -- The row is stored below the bound and did not end at or before the snapshot.
  pub record StoredFile (l : List Pair) (upper : Option Bytes) (snap : ℕ) (r : DataFileRow)
      : Type 0 where
    pub key : Bytes
    pub value : Bytes
    pub found : lookup key l ≡ some value
    pub decodes : decode_value codecs.data_file value ≡ ok r
    pub bounded : below key upper ≡ true
    pub lives : not (ended_by r.end_snapshot snap) ≡ true

  abbrev passes_at : ℕ → DataFileRow → Bool
  passes_at snap r = not (ended_by r.end_snapshot snap)

  files_loop_complete :
      (l : List Pair) (upper : Option Bytes) (snap : ℕ) (rows : List DataFileRow)
      → IsSorted l
      → files_loop codecs upper snap l ≡ ok rows
      → (r : DataFileRow) → StoredFile l upper snap r
      → IsIn r rows
  unfolding files_loop
  files_loop_complete [] upper snap rows sorted h r s = unfold lookup in cc (s.found)
  files_loop_complete ((j, w) ∷ l) upper snap rows sorted h r s =
      let here = lookup_cases j w s.key s.value l s.found in
      let open_here : below j upper ≡ true = elim here [
        | inl (same, v) ↦ cc (same, s.bounded)
        | inr g ↦
            below_earlier j s.key upper (later_key_above j s.key s.value l sorted.0 g) s.bounded
      ] in
      let (row, d, h1) =
        >>=-eq-ok (map_err value (decode_value codecs.data_file w)) _ (rw open_here at h) in
      let (later, e, eq) =
        keep_row-eq-ok codecs.data_file (passes_at snap) row (files_loop codecs upper snap l) rows
          h1 in
      rw eq (elim here [
        | inl (same_key, same) ↦
            let same_row : row ≡ r = cc (map_err-eq-ok _ d, same, s.decodes) in
            rw (same_row, s.lives) (inl refl)
        | inr g ↦ IsIn-kept codecs.data_file (passes_at snap) (passes_at snap row) row r later (
            files_loop_complete l upper snap later sorted.1 e r (record {
              key = s.key;
              value = s.value;
              found = g;
              decodes = s.decodes;
              bounded = s.bounded;
              lives = s.lives;
            }))
      ])

  files_loop_sound :
      (l : List Pair) (upper : Option Bytes) (snap : ℕ) (rows : List DataFileRow)
      → IsSorted l
      → files_loop codecs upper snap l ≡ ok rows
      → (r : DataFileRow) → IsIn r rows
      → StoredFile l upper snap r
  unfolding files_loop
  files_loop_sound [] upper snap rows sorted h r i = absurd (rw (← ok_injective h) at i)
  files_loop_sound ((j, w) ∷ l) upper snap rows sorted h r i = elim (Bool-cases (below j upper)) [
    | inr stops ↦ absurd (rw (← ok_injective (rw stops at h)) at i)
    | inl open_here ↦
        let (row, d, h1) =
          >>=-eq-ok (map_err value (decode_value codecs.data_file w)) _ (rw open_here at h) in
        let (later, e, eq) =
          keep_row-eq-ok codecs.data_file (passes_at snap) row (files_loop codecs upper snap l) rows
            h1 in
        elim (kept_cases codecs.data_file (passes_at snap) row r later (rw eq at i)) [
          | inl (same, pass) ↦ record {
            key = j;
            value = w;
            found = lookup_first j w l;
            decodes = map_err-eq-ok _ d ∙ ap ok same;
            bounded = open_here;
            lives = subst (λ x. passes_at snap x ≡ true) same pass;
          }
          | inr x ↦
              let s = files_loop_sound l upper snap later sorted.1 e r x in
              record {
                key = s.key;
                value = s.value;
                found =
                    lookup_later j w s.key s.value l
                      (later_key_differs j s.key s.value l sorted.0 s.found) s.found;
                decodes = s.decodes;
                bounded = s.bounded;
                lives = s.lives;
              }
        ]
  ]

module _ (codecs : Codecs) (kv : Kv) where
  open kv use {Db, get, scan_prefix, scan-IsSorted, lookup-scan}

  -- The index by snapshot has the row under a key below the bound of the snapshot, and the row did
  -- not end at or before the snapshot.
  pub record FileAt (db : Db) (snap table_id : ℕ) (r : DataFileRow) : Type 0 where
    pub indexed : Under kv codecs.data_file db (prefix_data_files_by_snapshot_for_table table_id) r
    pub bounded : below indexed.key (prefix_data_files_by_snapshot_upper table_id snap) ≡ true
    pub lives : ended_by r.end_snapshot snap ≡ false

  -- Where it succeeds, `list_data_files` returns exactly the rows of the table's index whose key
  -- is below the bound of the snapshot and that did not end by then, although it stops scanning at
  -- the first key above the bound; and it returns them in the order of `file_order`.
  pub list_data_files_iff :
      (db : Db) (snap table_id : ℕ) (rows : List DataFileRow)
      → list_data_files codecs kv db snap table_id ≡ ok rows
      → ((r : DataFileRow) → IsIn r rows ↔ FileAt db snap table_id r)
        × Ascends (file_key codecs) rows
  unfolding list_data_files
  list_data_files_iff db snap table_id rows h =
      let prefix = prefix_data_files_by_snapshot_for_table table_id in
      let upper = prefix_data_files_by_snapshot_upper table_id snap in
      let (files, e, h1) = >>=-eq-ok (files_loop codecs upper snap (scan_prefix db prefix)) _ h in
      let sorted = scan-IsSorted db prefix in
      rw (← ok_injective h1) (
        λ r. (
          λ i.
              let s =
                files_loop_sound codecs _ upper snap files sorted e r
                  ((sort-IsIn (file_key codecs) r files).0 i) in
              let at = scanned kv db prefix s.key s.value s.found in
              record {
                indexed = record {
                  key = s.key;
                  value = s.value;
                  selected = at.0;
                  holds = at.1;
                  decodes = s.decodes;
                };
                bounded = s.bounded;
                lives = ground (arith, s.lives);
              },
          λ a. (sort-IsIn (file_key codecs) r files).1 (
              files_loop_complete codecs _ upper snap files sorted e r (record {
                key = a.indexed.key;
                value = a.indexed.value;
                found =
                    rw (lookup-scan db prefix a.indexed.key, a.indexed.selected) (a.indexed.holds);
                decodes = a.indexed.decodes;
                bounded = a.bounded;
                lives = rw (a.lives) refl;
              })),
        ),
        sort-Ascends (file_key codecs) files,
      )

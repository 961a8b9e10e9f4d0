-- ===== src/Catalog/Writer/RowIds/Ranges.antt =====
-- The loop of `next_rowid_range` in writer/mod.rs and the stored counter.
use slateduck.Prelude.{
  ℕ, suc, ◌+◌, ◌<◌, ◌^◌, ◌≡◌, ◌≤◌, ◌⊎◌, refl, ap, ◌∙◌, false, List, [], ◌∷◌, ltb, ◌==◌, arith,
  Bool-cases, inl, inr,
}
use slateduck.Prelude.Bytes.{Bytes, bytes_eq, bytes_eq_refl}
use slateduck.Core.Result.{
  ok, err, CatalogResult, CatalogError, ok_injective, >>=-eq-ok, >>=-eq-err,
}
use slateduck.Core.BigEndian.{IsU64}
use slateduck.Core.Values.RoundTrip.{decode_counter-encode_counter}
use slateduck.Core.Keys.System.{key_counter_rowid}
use slateduck.Catalog.Kv.{Kv, after_rounds, StoppedAt}
use slateduck.Catalog.Gc.{counter_or_zero}
use slateduck.Catalog.Writer.RowIds.{
  check_count, range_in, take_range, lost_range, range_loop, counted, next_rowid_range,
}

module _ (kv : Kv) (table_id count : ℕ) where
  open kv use {Db, get, put, get-put}

  -- The range from `start` up to, and without, `end` was taken off the state `seen`, which left `db'`.
  pub record Taken (seen : Db) (start end : ℕ) (db' : Db) : Type 0 where
    pub positive : 0 < count
    pub from : counter_or_zero (get seen (key_counter_rowid table_id)) ≡ ok start
    pub upto : end ≡ start + count
    pub fits : IsU64 end
    pub stored : counter_or_zero (get db' (key_counter_rowid table_id)) ≡ ok end
    pub others :
        (k : Bytes) → bytes_eq (key_counter_rowid table_id) k ≡ false → get db' k ≡ get seen k

  -- No ids are asked for, the table's counter cannot be read, or the range leaves the u64s.
  abbrev pub Refused : CatalogError → Db → Type 0
  Refused e seen =
      (count ≡ 0)
      ⊎ ((counter_or_zero (get seen (key_counter_rowid table_id)) ≡ err e)
          ⊎ ((s : ℕ) × (counter_or_zero (get seen (key_counter_rowid table_id)) ≡ ok s)
              × (2 ^ 64 ≤ s + count)))

  -- The round that commits comes after all that conflict, and sees what the others wrote in them.
  abbrev pub TakenBy : Db → List (Db → Db) → CatalogResult (ℕ × ℕ) × Db → Type 0
  TakenBy db rounds (ok (start, end), db') = Taken (after_rounds db rounds) start end db'
  TakenBy db rounds (err e, db') = StoppedAt (Refused e) db rounds db'

  range_in-eq-ok :
      (db : Db) (start end : ℕ)
      → range_in kv db table_id count ≡ ok (start, end)
      → (counter_or_zero (get db (key_counter_rowid table_id)) ≡ ok start)
        × (end ≡ start + count)
        × IsU64 end
  unfolding range_in
  range_in-eq-ok db start end h =
      let (s, r, h1) = >>=-eq-ok (counter_or_zero (get db (key_counter_rowid table_id))) _ h in
      elim (Bool-cases (ltb (s + count) (2 ^ 64))) [
        | inl below ↦
            let e : ◌≡◌ {A = ℕ × ℕ} (s, s + count) (start, end) = ok_injective (rw below at h1) in
            let same : s ≡ start = ap (λ (p : ℕ × ℕ). p.0) e in
            let upto : s + count ≡ end = ap (λ (p : ℕ × ℕ). p.1) e in
            (r ∙ ap ok same, omega (arith, same, upto), ground (arith, same, upto, below))
        | inr above ↦ cc (rw above at h1)
      ]

  range_in-eq-err :
      (db : Db) (e : CatalogError) → range_in kv db table_id count ≡ err e → Refused e db
  unfolding range_in
  range_in-eq-err db e h =
      elim (>>=-eq-err (counter_or_zero (get db (key_counter_rowid table_id))) _ h) [
        | inl unread ↦ inr (inl unread)
        | inr (s, r, h1) ↦ elim (Bool-cases (ltb (s + count) (2 ^ 64))) [
          | inl below ↦ cc (rw below at h1)
          | inr above ↦ inr (inr (s, r, ground (arith, above)))
        ]
      ]

  take-TakenBy :
      (db : Db) (r : CatalogResult (ℕ × ℕ))
      → 0 < count
      → range_in kv db table_id count ≡ r
      → TakenBy db [] (take_range kv db table_id r)
  unfolding take_range
  take-TakenBy db (err e) pos h = (0, refl, range_in-eq-err db e h)
  take-TakenBy db (ok (start, end)) pos h =
      let (r, u, fits) = range_in-eq-ok db start end h in
      record {
        positive = pos;
        from = r;
        upto = u;
        fits = fits;
        stored =
            rw (get-put, bytes_eq_refl)
              (unfold counter_or_zero in rw (decode_counter-encode_counter end fits) refl);
        others = λ k ne. rw (get-put, ne) refl;
      }

  lost-TakenBy :
      (db : Db) (others : Db → Db) (rounds : List (Db → Db)) (r : CatalogResult (ℕ × ℕ))
      (next : CatalogResult (ℕ × ℕ) × Db)
      → range_in kv db table_id count ≡ r
      → TakenBy (others db) rounds next
      → TakenBy db (others ∷ rounds) (lost_range kv db r next)
  unfolding lost_range
  lost-TakenBy db others rounds (err e) next first h = (0, refl, range_in-eq-err db e first)
  lost-TakenBy db others rounds (ok p) (ok q, db') first h = h
  lost-TakenBy db others rounds (ok p) (err e, db') first (n, same, h) = (suc n, same, h)

  loop-TakenBy :
      (db : Db) (rounds : List (Db → Db))
      → 0 < count
      → TakenBy db rounds (range_loop kv db table_id count rounds)
  unfolding range_loop
  loop-TakenBy db [] pos = take-TakenBy db (range_in kv db table_id count) pos refl
  loop-TakenBy db (others ∷ rounds) pos =
      lost-TakenBy db others rounds (range_in kv db table_id count) _ refl
        (loop-TakenBy (others db) rounds pos)

  -- Whatever the others wrote in the rounds whose commits conflicted, a range of row ids that is
  -- returned has `count` ids and at least one, begins at the table's counter as it stood after all
  -- of them, ends at the counter stored afterwards, which is a u64, and every other key holds what
  -- they left. An error leaves the store as it was in some round, where no ids were asked for, or
  -- the counter could not be read in it, with that error, or the range would have left the u64s.
  pub next_rowid_range-TakenBy :
      (db : Db) (rounds : List (Db → Db))
      → TakenBy db rounds (next_rowid_range kv db table_id count rounds)
  unfolding next_rowid_range counted check_count
  next_rowid_range-TakenBy db rounds = elim (Bool-cases (count == 0)) [
    | inl zero_count ↦ rw zero_count (0, refl, inl (ground (arith, zero_count)))
    | inr some_count ↦ rw some_count (loop-TakenBy db rounds (ground (arith, some_count)))
  ]

-- ===== src/Catalog/Writer/Changes/Tokens.antt =====
-- What the row of a snapshot says after any number of `add_snapshot_changes`.
use slateduck.Prelude.{
  ℕ, ◌≡◌, refl, ap, sym, ◌∙◌, Option, none, some, List, [], ◌∷◌, ◌++◌, append_assoc, append-nil,
}
use slateduck.Prelude.Bytes.{Bytes}
use slateduck.Core.Rows.{SnapshotChangesRow}
use slateduck.Core.Counters.{peek_snapshot_id}
use slateduck.Catalog.Writer.{CatalogWriter}
use slateduck.Catalog.Writer.Changes.{token, append_token, or_named, gather, add_snapshot_changes}

pub record Change : Type 0 where
  pub change_type : Bytes
  pub change_info : Option Bytes
  pub schema_id : Option ℕ
  pub table_id : Option ℕ

-- The calls of one session.
unfoldable pub add_all : List Change → CatalogWriter → CatalogWriter
unfolding add_snapshot_changes
add_all [] w = w
add_all (c ∷ cs) w =
    add_all cs (add_snapshot_changes c.change_type c.change_info c.schema_id c.table_id w).1

-- A token in front of others, unless it says nothing.
unfoldable pub said : Bytes → List Bytes → List Bytes
said [] ts = ts
said (x ∷ t) ts = (x ∷ t) ∷ ts

-- The tokens that say something.
unfoldable pub spoken : List Change → List Bytes
unfolding token said
spoken [] = []
spoken (c ∷ cs) = said (token c.change_type c.change_info) (spoken cs)

-- Each behind a comma.
unfoldable pub behind : List Bytes → Bytes
behind [] = []
behind (t ∷ ts) = 44 ∷ (t ++ behind ts)

-- The tokens with a comma between two.
unfoldable pub listed : List Bytes → Option Bytes
unfolding behind
listed [] = none
listed (t ∷ ts) = some (t ++ behind ts)

-- The first that is named.
unfoldable pub first_named : Option ℕ → (Change → Option ℕ) → List Change → Option ℕ
first_named none f [] = none
first_named none f (c ∷ cs) = first_named (f c) f cs
first_named (some n) f cs = some n

behind-append : (ts us : List Bytes) → behind (ts ++ us) ≡ behind ts ++ behind us
unfolding behind
behind-append [] us = refl
behind-append (t ∷ ts) us = rw (behind-append ts us, append_assoc t (behind ts) (behind us)) refl

append_token-listed :
    (ts : List Bytes) (t : Bytes) → append_token (listed ts) t ≡ listed (ts ++ said t [])
unfolding append_token listed said behind
append_token-listed [] [] = refl
append_token-listed [] (x ∷ t) = rw (append-nil t) refl
append_token-listed (s ∷ ts) [] = rw (append-nil ts) refl
append_token-listed (s ∷ ts) (x ∷ t) = ap some (
    append_assoc s (behind ts) (44 ∷ x ∷ t)
    ∙ ap (λ l. s ++ l) (rw (behind-append ts ((x ∷ t) ∷ []), append-nil t) refl))

said_append : (ts us : List Bytes) (t : Bytes) → (ts ++ said t []) ++ us ≡ ts ++ said t us
unfolding said
said_append ts us [] = rw (append-nil ts) refl
said_append ts us (x ∷ t) = append_assoc ts ((x ∷ t) ∷ []) us

first_named-or_named :
    (o : Option ℕ) (f : Change → Option ℕ) (c : Change) (cs : List Change)
    → first_named o f (c ∷ cs) ≡ first_named (or_named o (f c)) f cs
unfolding first_named or_named
first_named-or_named none f c cs = refl
first_named-or_named (some n) f c cs = refl

-- A row with the tokens and the ids of the changes, on top of those that stood in it.
record Gathered (before after : SnapshotChangesRow) (ts : List Bytes) (cs : List Change)
    : Type 0 where
  snapshot_id : after.snapshot_id ≡ before.snapshot_id
  change_type : after.change_type ≡ before.change_type
  change_info : after.change_info ≡ before.change_info
  changes_made : after.changes_made ≡ listed (ts ++ spoken cs)
  schema_id : after.schema_id ≡ first_named before.schema_id (λ c. c.schema_id) cs
  table_id : after.table_id ≡ first_named before.table_id (λ c. c.table_id) cs

first_named_nil : (o : Option ℕ) (f : Change → Option ℕ) → o ≡ first_named o f []
unfolding first_named
first_named_nil none f = refl
first_named_nil (some n) f = refl

add_all-existing :
    (cs : List Change) (w : CatalogWriter) (row : SnapshotChangesRow) (ts : List Bytes)
    → row.changes_made ≡ listed ts
    → (after : SnapshotChangesRow) × ((add_all cs
          (record w { pending_snapshot_changes = some row })).pending_snapshot_changes
        ≡ some after)
      × Gathered row after ts cs
unfolding add_all gather spoken first_named add_snapshot_changes
add_all-existing [] w row ts m = (
  row,
  refl,
  record {
    snapshot_id = refl;
    change_type = refl;
    change_info = refl;
    changes_made = m ∙ ap listed (sym (append-nil ts));
    schema_id = first_named_nil row.schema_id (λ c. c.schema_id);
    table_id = first_named_nil row.table_id (λ c. c.table_id);
  },
)
add_all-existing (c ∷ cs) w row ts m =
    let t = token c.change_type c.change_info in
    let next =
      gather (peek_snapshot_id w.counters) (some row) c.change_type c.change_info c.schema_id
        c.table_id in
    let (after, p, g) =
      add_all-existing cs w next (ts ++ said t [])
        (ap (λ made. append_token made t) m ∙ append_token-listed ts t) in
    (
      after,
      p,
      record {
        snapshot_id = g.snapshot_id;
        change_type = g.change_type;
        change_info = g.change_info;
        changes_made = g.changes_made ∙ ap listed (said_append ts (spoken cs) t);
        schema_id = g.schema_id ∙ sym (first_named-or_named row.schema_id (λ d. d.schema_id) c cs);
        table_id = g.table_id ∙ sym (first_named-or_named row.table_id (λ d. d.table_id) c cs);
      },
    )

-- However many times `add_snapshot_changes` is called, once or more, on a writer with nothing
-- pending, one row is pending: it has the next snapshot's id, the type of the first change, the
-- tokens that are not empty, in order, with a comma between two, and the first schema id and the
-- first table id that a change names.
pub add_all-gathers :
    (c : Change) (cs : List Change) (w : CatalogWriter)
    → w.pending_snapshot_changes ≡ none
    → (row : SnapshotChangesRow) × ((add_all (c ∷ cs) w).pending_snapshot_changes ≡ some row)
      × (row.snapshot_id ≡ peek_snapshot_id w.counters)
      × (row.change_type ≡ c.change_type)
      × (row.changes_made ≡ listed (spoken (c ∷ cs)))
      × (row.schema_id ≡ first_named none (λ d. d.schema_id) (c ∷ cs))
      × (row.table_id ≡ first_named none (λ d. d.table_id) (c ∷ cs))
unfolding add_all gather spoken first_named add_snapshot_changes listed
add_all-gathers c cs w p =
    let t = token c.change_type c.change_info in
    let first =
      gather (peek_snapshot_id w.counters) none c.change_type c.change_info c.schema_id
        c.table_id in
    let (row, q, g) = add_all-existing cs w first (said t []) (append_token-listed [] t) in
    (
      row,
      ap
            (λ o.
              let made =
                gather (peek_snapshot_id w.counters) o c.change_type c.change_info c.schema_id
                  c.table_id in
              (add_all cs
                (record w { pending_snapshot_changes = some made })).pending_snapshot_changes)
            p
          ∙ q,
      g.snapshot_id,
      g.change_type,
      g.changes_made ∙ ap listed (said_append [] (spoken cs) t),
      g.schema_id,
      g.table_id,
    )

-- ===== src/Controller/Table.antt =====
-- The table of connections as it is meant, apart from the maps that
-- operator/controllers/collectormonitor_controller.go keeps: who holds which client object.
use mathlib.Core.Path.{fun_ext, ap₂}
use collectorctrl_k8s_code.Common.{
  ℕ, suc, Option, none, some, List, [], ◌∷◌, ◌++◌, ◌≡◌, ap, Text, ◌==◌, if◌then◌else◌, Assoc,
  length, lookup, insert, remove, ◌<◌, ◌⊎◌, arith, ==_iff, sym, subst, set,
}
use collectorctrl_k8s_code.Common.Maps.{lookup-insert, lookup-remove}
use collectorctrl_k8s_code.Common.Places.{length-snoc, length-set}

-- The object that each key holds, and how many objects were made.
pub record Table : Type 0 where
  pub holder : Text → Option ℕ
  pub made : ℕ

abbrev pub holding : Text → Option ℕ → (Text → Option ℕ) → Text → Option ℕ
holding key p f j = if key == j then p else f j

-- A key that holds nothing gets a new object; an object is made for nobody; a key lets go.
pub data Change : Table → Table → Type 0 where
  opens :
      (key : Text) (t : Table)
      → t.holder key ≡ none
      → Change t (record { holder = holding key (some t.made) t.holder; made = suc t.made })
  wastes : (t : Table) → Change t (record t { made = suc t.made })
  closes : (key : Text) (t : Table) → Change t (record t { holder = holding key none t.holder })

abbrev pub empty_table : Table
empty_table = record { holder = λ key. none; made = 0 }

-- What one change or none leads to.
abbrev pub AtMostOne : Table → Table → Type 0
AtMostOne s t = (s ≡ t) ⊎ Change s t

pub data Makes : Table → Type 0 where
  nothing : Makes empty_table
  change : (s t : Table) → Makes s → Change s t → Makes t

-- What holds of a table, however it was made.
pub record IsExclusive (t : Table) : Type 0 where
  pub below : (key : Text) (p : ℕ) → t.holder key ≡ some p → p < t.made
  pub alone : (j k : Text) (p : ℕ) → t.holder j ≡ some p → t.holder k ≡ some p → j ≡ k

Change-IsExclusive : (s t : Table) → Change s t → IsExclusive s → IsExclusive t
Change-IsExclusive _ _ (opens key s free) h = record {
  below = λ j p e. grind (arith, h.below j p);
  alone = λ j k p e f.
      grind (arith, h.below j p, h.below k p, h.alone j k p, ==_iff key j, ==_iff key k);
}
Change-IsExclusive _ _ (wastes s) h = record {
  below = λ j p e. omega (arith, h.below j p e);
  alone = h.alone;
}
Change-IsExclusive _ _ (closes key s) h = record {
  below = λ j p e. grind (arith, h.below j p);
  alone = λ j k p e f. grind (arith, h.alone j k p);
}

-- No object is held by two keys, in any table that changes make out of the empty one.
pub Makes-IsExclusive : (t : Table) → Makes t → IsExclusive t
Makes-IsExclusive _ nothing = record { below = λ j p e. cc; alone = λ j k p e f. cc }
Makes-IsExclusive _ (change s t m c) = Change-IsExclusive s t c (Makes-IsExclusive s m)

module _ {A : Type 0} where
  abbrev pub table_with : Assoc ℕ → List A → Table
  table_with clients store = record { holder = λ key. lookup key clients; made = length store }

  pub table_with-insert :
      (key : Text) (clients : Assoc ℕ) (store : List A) (x : A)
      → lookup key clients ≡ none
      → Change
          (table_with clients store)
          (table_with (insert key (length store) clients) (store ++ x ∷ []))
  table_with-insert key clients store x free =
      subst (Change (table_with clients store))
        (sym (
          ap₂ (λ f n. record { holder = f; made = n })
            (fun_ext (λ j. lookup-insert j key (length store) clients)) (length-snoc store x)))
        (opens key (table_with clients store) free)

  pub table_with-append :
      (clients : Assoc ℕ) (store : List A) (x : A)
      → Change (table_with clients store) (table_with clients (store ++ x ∷ []))
  table_with-append clients store x =
      subst (Change (table_with clients store))
        (ap (λ n. record { holder = λ key. lookup key clients; made = n })
          (sym (length-snoc store x)))
        (wastes (table_with clients store))

  pub table_with-remove :
      (key : Text) (clients : Assoc ℕ) (store : List A)
      → Change (table_with clients store) (table_with (remove key clients) store)
  table_with-remove key clients store =
      subst (Change (table_with clients store))
        (ap (λ f. record { holder = f; made = length store })
          (sym (fun_ext (λ j. lookup-remove j key clients))))
        (closes key (table_with clients store))

  pub table_with-set :
      (clients : Assoc ℕ) (store : List A) (p : ℕ) (x : A)
      → table_with clients (set store p x) ≡ table_with clients store
  table_with-set clients store p x =
      ap (λ n. record { holder = λ key. lookup key clients; made = n }) (length-set store p x)

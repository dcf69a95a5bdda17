-- ===== src/Catalog/Laws.antt =====
-- Both languages have the same texts to offer.
use sbm.Base.{
  ◌≤◌, ◌≡◌, refl, sym, Bool, true, false, ◌&&◌, Option, none, some, List, [], ◌∷◌, ◌++◌, length,
  if◌then◌else◌, arith,
}
use sbm.Base.Text.{Text, codes, text_eq, text_eq_sound}
use sbm.I18n.{Locale, zh_cn, en, other}
use sbm.Catalog.{Row, find, tables, spread, messages, placeholders}
use sbm.Catalog.Agree.{
  agree_row, agree, filled, agree-egress, agree-history, agree-network, agree-console, agree-forms,
  agree-health,
}

-- What two tables have for one key: neither has a text, or both have, none is empty, and both have the
-- same placeholders.
abbrev pub Both : Option Text → Option Text → Type 0
Both none none = Unit
Both (some v) (some w) = (1 ≤ length v) × (1 ≤ length w) × (placeholders v ≡ placeholders w)
Both none (some w) = ⊥
Both (some v) none = ⊥

filled-length : (s : Text) → filled s ≡ true → 1 ≤ length s
filled-length [] h = absurd (cc h)
filled-length (c ∷ s) h = omega arith

and_parts :
    (a b c d : Bool) → (a && b && c && d) ≡ true → (a ≡ true) × (b ≡ true) × (c ≡ true) × (d ≡ true)
and_parts a b c d h = ground arith

-- What a row of both tables has.
row_parts :
    (a b : Row)
    → agree_row a b ≡ true
    → (codes a.0 ≡ codes b.0)
      × (1 ≤ length (codes a.1))
      × (1 ≤ length (codes b.1))
      × (placeholders (codes a.1) ≡ placeholders (codes b.1))
unfolding agree_row
row_parts (k, v) (j, w) h =
    let (e, f, g, p) = and_parts _ _ _ _ h in
    (
      text_eq_sound (codes k) (codes j) e,
      filled-length (codes v) f,
      filled-length (codes w) g,
      text_eq_sound (placeholders (codes v)) (placeholders (codes w)) p,
    )

agree-append :
    (xs ys cs ds : List Row)
    → agree xs ys ≡ true
    → agree cs ds ≡ true
    → agree (xs ++ cs) (ys ++ ds) ≡ true
unfolding agree
agree-append [] [] cs ds h k = k
agree-append (a ∷ xs) (b ∷ ys) cs ds h k = ground (arith, agree-append xs ys cs ds)
agree-append [] (b ∷ ys) cs ds h k = absurd (cc h)
agree-append (a ∷ xs) [] cs ds h k = absurd (cc h)

-- A later row with the key wins in both tables.
add_row :
    (key : Text) (a b : Row) (o p : Option Text)
    → agree_row a b ≡ true
    → Both o p
    → Both
        (elim o [
          | some later ↦ some later
          | none ↦ if text_eq (codes a.0) key then some (codes a.1) else none
        ])
        (elim p [
          | some later ↦ some later
          | none ↦ if text_eq (codes b.0) key then some (codes b.1) else none
        ])
unfolding agree_row
add_row key (k, v) (j, w) (some x) (some y) h both = both
add_row key (k, v) (j, w) none (some y) h both = absurd both
add_row key (k, v) (j, w) (some x) none h both = absurd both
add_row key (k, v) (j, w) none none h both =
    let (e, f, g, p) = row_parts (k, v) (j, w) h in rw e (pick (text_eq (codes j) key) (f, g, p))
  where
    pick :
        (t : Bool)
        → Both (some (codes v)) (some (codes w))
        → Both (if t then some (codes v) else none) (if t then some (codes w) else none)
    pick true q = q
    pick false q = tt

find-Both : (key : Text) (xs ys : List Row) → agree xs ys ≡ true → Both (find key xs) (find key ys)
unfolding find agree
find-Both key [] [] h = tt
find-Both key (a ∷ xs) (b ∷ ys) h =
    add_row key a b (find key xs) (find key ys) (ground arith) (find-Both key xs ys (ground arith))
find-Both key [] (b ∷ ys) h = absurd (cc h)
find-Both key (a ∷ xs) [] h = absurd (cc h)

empty : agree [] [] ≡ true
unfolding agree
empty = refl

tables-Both : (key : Text) → Both (messages zh_cn key) (messages en key)
unfolding messages tables
tables-Both key = find-Both key (spread (tables zh_cn)) (spread (tables en)) (
    agree-append _ _ _ _ agree-egress (
      agree-append _ _ _ _ agree-history (
        agree-append _ _ _ _ agree-network (
          agree-append _ _ _ _ agree-console
            (agree-append _ _ _ _ agree-forms (agree-append _ _ _ _ agree-health empty))))))

-- What another locale has for a key that has the text `v`.
pub record Matched (v : Text) (found : Option Text) : Type 0 where
  pub text : Text
  pub is_found : found ≡ some text
  pub same_placeholders : placeholders text ≡ placeholders v
  pub not_empty : (1 ≤ length v) × (1 ≤ length text)

Both-Matched : (o p : Option Text) (v : Text) → Both o p → o ≡ some v → Matched v p
Both-Matched (some x) (some y) v (l, m, e) h =
    let same : x ≡ v = cc in
    rw (← same)
      (record { text = y; is_found = refl; same_placeholders = sym e; not_empty = (l, m) })
Both-Matched none p v b h = absurd (cc h)
Both-Matched (some x) none v b h = absurd b

Both-sym : (o p : Option Text) → Both o p → Both p o
Both-sym none none b = tt
Both-sym (some x) (some y) (l, m, e) = (m, l, sym e)
Both-sym none (some y) b = b
Both-sym (some x) none b = b

-- A key that has a text in one language has one in the other, neither is empty, and both have the same
-- placeholders.
pub messages-Matched :
    (l : Locale) (key v : Text) → messages l key ≡ some v → Matched v (messages (other l) key)
messages-Matched zh_cn key v h =
    Both-Matched (messages zh_cn key) (messages en key) v (tables-Both key) h
messages-Matched en key v h =
    Both-Matched (messages en key) (messages zh_cn key) v
      (Both-sym (messages zh_cn key) (messages en key) (tables-Both key)) h

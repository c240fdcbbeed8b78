-- ===== src/State/InPlace.antt =====
-- Every row of a run stands under its own fingerprint.
use seta.Prelude.{
  ℕ, ◌≡◌, refl, Bool, List, [], ◌∷◌, Option, none, some, arith, Bytes, Map, lookup, insert, All,
  All-insert, All-lookup, subst, sym, IsUnique, insert-IsUnique,
}
use seta.State.{Row, EvidenceText, Stored, Change}
use seta.State.Record.{Present, Scope, scanned, touch, absorb, sweep, sweep_row, load_onto}
use seta.State.Absorb.{fp_of}
use seta.State.Save.{IsInPlace, IsCurrent, load_onto-current}

touch-IsInPlace :
    (now : ℕ) (fp : Bytes) (old : Option Row) (p : Present)
    → ((r : Row) → old ≡ some r → IsInPlace (fp, r))
    → IsInPlace (fp, touch now fp old p)
unfolding touch
touch-IsInPlace now fp none p h = (refl, refl)
touch-IsInPlace now fp (some r) p h = h r refl

pub absorb-IsInPlace :
    (digest : Bytes → Bytes) (now : ℕ) (ps : List Present) (rows : Map Row) (changes : List Change)
    → All IsInPlace rows
    → All IsInPlace (absorb digest now ps rows changes).0
unfolding absorb
absorb-IsInPlace digest now [] rows changes h = h
absorb-IsInPlace digest now (p ∷ ps) rows changes h =
    let fp = fp_of digest p in
    let old = lookup fp rows in
    absorb-IsInPlace digest now ps (insert fp (touch now fp old p) rows) _ (
      All-insert IsInPlace fp (touch now fp old p) rows
        (touch-IsInPlace now fp old p (λ r e. All-lookup IsInPlace fp r rows h e)) h)

sweep_row-IsInPlace :
    (now after : ℕ) (scope : Scope) (seen : Bool) (fp : Bytes) (r : Row)
    → IsInPlace (fp, r)
    → IsInPlace (fp, sweep_row now after scope seen r)
unfolding sweep_row
sweep_row-IsInPlace now after scope seen fp r h = (ground (arith, h.0), ground (arith, h.1))

pub sweep-IsInPlace :
    (now after : ℕ) (scope : Scope) (seen : Bytes → Bool) (rows : Map Row)
    → All IsInPlace rows
    → All IsInPlace (sweep now after scope seen rows).0
unfolding sweep
sweep-IsInPlace now after scope seen [] h = tt
sweep-IsInPlace now after scope seen ((fp, r) ∷ rest) h = (
  sweep_row-IsInPlace now after scope (seen fp) fp r h.0,
  sweep-IsInPlace now after scope seen rest h.1,
)

scanned-IsInPlace :
    (json : EvidenceText) (fp : Bytes) (s : Stored) → IsInPlace (fp, scanned json fp s)
unfolding scanned
scanned-IsInPlace json fp s = (refl, refl)

pub load_onto-IsInPlace :
    (digest : Bytes → Bytes) (json : EvidenceText) (canonical : Bytes → Bytes) (table : Map Stored)
    (rows : Map Row)
    → All (IsCurrent canonical) table
    → All IsInPlace rows
    → All IsInPlace (load_onto digest json canonical table rows)
unfolding load_onto
load_onto-IsInPlace digest json canonical [] rows c h = h
load_onto-IsInPlace digest json canonical ((fp, s) ∷ rest) rows c h =
    subst (All IsInPlace) (sym (load_onto-current digest json canonical fp s rest rows c.0)) (
      load_onto-IsInPlace digest json canonical rest (insert fp (scanned json fp s) rows) c.1
        (All-insert IsInPlace fp (scanned json fp s) rows (scanned-IsInPlace json fp s) h))

pub load_onto-IsUnique :
    (digest : Bytes → Bytes) (json : EvidenceText) (canonical : Bytes → Bytes) (table : Map Stored)
    (rows : Map Row)
    → IsUnique rows
    → IsUnique (load_onto digest json canonical table rows)
unfolding load_onto
load_onto-IsUnique digest json canonical [] rows u = u
load_onto-IsUnique digest json canonical ((fp, s) ∷ rest) rows u =
    load_onto-IsUnique digest json canonical rest _ (insert-IsUnique _ _ rows u)

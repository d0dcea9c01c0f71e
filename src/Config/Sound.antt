-- ===== src/Config/Sound.antt =====
-- lib/configl.c: what holds of a list that has been loaded, whatever the database answers.
use mathlib.Core.Path.{subst}
use regonf.Prelude.{
  ℕ, ◌+◌, ◌-◌, ◌≤◌, ◌<◌, ◌≡◌, ◌∷◌, ◌++◌, leb, length-append, refl, Bool, true, false, ◌&&◌, ◌||◌,
  Option, none, some, List, [], ◌==◌, arith, length, if◌then◌else◌, if_cases, if-elim,
}
use regonf.Prelude.Int.{ℤ, pos, negsuc}
use regonf.CString.{codes}
use regonf.Float.{FloatOps}
use regonf.Acp.{Peer}
use regonf.Config.{
  not, Column, scan_columns, Row, Texts, Sqlite, DbWorld, is_unique, check_peer_list,
  check_sensor_fts_list, check_em_list, db_open, db_close, db_get_int, exec_rows,
}
use regonf.Config.Lists.{list_row, fill, load_list, get_peer_list, get_sensor_fts_list, get_em_list}

-- The database that was opened is closed, a list that is refused is empty, and the ids of a list that is
-- returned differ. Where an array is overrun, this says why.
abbrev pub IsLoaded :
    {A W : Type 0}
    → (why : Type 0) → (List A → Bool)
    → ℕ
    → Option (Bool × List A × DbWorld W)
    → Type 0
IsLoaded why unique handles none = why
IsLoaded why unique handles (some r) =
    (r.2.handles ≡ handles) × (unique r.1 ≡ true) × ((r.0 || (length r.1 == 0)) ≡ true)

-- A callback that writes behind an array of `n` items finds the array full, and it adds one item at most.
abbrev Grows : {A : Type 0} → ℕ → List A → Option (Bool × List A) → Type 0
Grows n items none = n ≤ length items
Grows n items (some r) = length r.1 ≤ length items + 1

list_row-Grows :
    {A : Type 0} (n required : ℕ) (blank : A) (step : Column → A × ℕ → Option (A × ℕ))
    (accepts : A → Bool) (row : Row) (items : List A)
    → Grows n items (list_row n required blank step accepts row items)
list_row-Grows {A} n required blank step accepts row items =
    if_cases (Grows n items) (leb n (length items)) _ _ (λ full. ground (arith, full))
      (λ _. by_scan (scan_columns step row (blank, 0)))
  where
    by_scan :
        (o : Option (A × ℕ))
        → Grows n items (elim o as (λ _. Option (Bool × List A)) [
          | none ↦ some (false, items)
          | some (a, c) ↦ some ((c == required) && accepts a, items ++ a ∷ [])
        ])
    by_scan none = omega arith
    by_scan (some (a, c)) = omega (arith, length-append items (a ∷ []))

-- Rows overrun an array that they have been counted for only where they are more than counted.
abbrev Fits : {A : Type 0} → Type 0 → Option A → Type 0
Fits why none = why
Fits why (some r) = Unit

exec_rows-Fits :
    {W A : Type 0} (sql : Sqlite W) (n : ℕ) (callback : Row → List A → Option (Bool × List A))
    → ((row : Row) (items : List A) → Grows n items (callback row items))
    → (rows : List Row) (items : List A)
    → Fits (n < length items + length rows) (exec_rows sql callback rows items)
unfolding exec_rows
exec_rows-Fits sql n callback grows [] items = tt
exec_rows-Fits {W} {A} sql n callback grows (row ∷ rows) items =
    by_row (callback row items) (grows row items)
      (λ items'. exec_rows-Fits sql n callback grows rows items')
  where
    Goal : Option (Bool × List A) → Type 0
    Goal = Fits (n < length items + length (row ∷ rows))

    widen :
        (o : Option (Bool × List A)) (m : ℕ)
        → m ≤ length items + 1
        → Fits (n < m + length rows) o
        → Goal o
    widen none m le f = omega arith
    widen (some r) m le f = tt

    by_row :
        (o : Option (Bool × List A))
        → Grows n items o
        → ((items' : List A)
            → Fits (n < length items' + length rows) (exec_rows sql callback rows items'))
        → Goal (elim o as (λ _. Option (Bool × List A)) [
          | none ↦ none
          | some (fine, a') ↦ if fine then exec_rows sql callback rows a' else some (false, a')
        ])
    by_row none g rest = omega arith
    by_row (some (fine, items')) g rest =
        if-elim Goal fine _ _ (widen _ (length items') g (rest items')) tt

-- The database counts `k` rows and then gives more rows than that.
abbrev pub GivesMore : {W : Type 0} → Sqlite W → (text : List ℕ) → ℤ → DbWorld W → Type 0
GivesMore sql text (negsuc k) d = ⊥
GivesMore sql text (pos k) d = k < length (sql.query text d.world).0

-- The second query of a loading gives more rows than the first one has counted.
abbrev pub CountsLess :
    {F W : Type 0} → Texts F → Sqlite W → (count_text text path : List ℕ) → DbWorld W → Type 0
CountsLess texts sql count_text text path d =
    let (_, n, d2) = db_get_int sql texts.atoi count_text (db_open sql path d).1 in
    GivesMore sql text n d2

module _ {F W A : Type 0} ⦃float : FloatOps F⦄ (texts : Texts F) (sql : Sqlite W)
    (callback : ℕ → Row → List A → Option (Bool × List A)) (unique : List A → Bool)
    (grows : (n : ℕ) (row : Row) (items : List A) → Grows n items (callback n row items)) where
  fill-IsLoaded :
      (n : ℕ) (text : List ℕ) (d : DbWorld W)
      → unique [] ≡ true
      → IsLoaded
          (GivesMore sql text (pos n) d)
          unique
          (d.handles - 1)
          (fill texts sql callback unique n text d)
  fill-IsLoaded n text d u =
      by_rows (exec_rows sql (callback n) (sql.query text d.world).0 [])
        (exec_rows-Fits sql n (callback n) (grows n) (sql.query text d.world).0 [])
    where
      d1 : DbWorld W
      d1 = db_close sql (record d { world = (sql.query text d.world).2 })

      by_rows :
          (o : Option (Bool × List A))
          → Fits (n < 0 + length (sql.query text d.world).0) o
          → IsLoaded
              (GivesMore sql text (pos n) d)
              unique
              (d.handles - 1)
              (elim o as (λ _. Option (Bool × List A × DbWorld W)) [
                | none ↦ none
                | some (fine, items) ↦ some (
                    if fine && (sql.query text d.world).1 && unique items
                    then (true, items, d1)
                    else (false, [], d1))
              ])
      by_rows none f = omega arith
      by_rows (some (fine, items)) f = ground arith

  load_list-IsLoaded :
      (count_text text path : List ℕ) (d : DbWorld W)
      → unique [] ≡ true
      → IsLoaded
          (CountsLess texts sql count_text text path d)
          unique
          d.handles
          (load_list texts sql callback unique count_text text path d)
  load_list-IsLoaded count_text text path d u =
      if_cases (IsLoaded (GivesMore sql text n d2) unique d.handles) (not opened) _ _
        (λ shut. (ground arith, u, refl)) (λ is_open. by_count n d2 (ground (arith, is_open)))
    where
      opened : Bool
      opened = (db_open sql path d).0

      n : ℤ
      n = (db_get_int sql texts.atoi count_text (db_open sql path d).1).1

      d2 : DbWorld W
      d2 = (db_get_int sql texts.atoi count_text (db_open sql path d).1).2

      by_count :
          (k : ℤ) (e : DbWorld W)
          → e.handles ≡ d.handles + 1
          → IsLoaded
              (GivesMore sql text k e)
              unique
              d.handles
              (elim k as (λ _. Option (Bool × List A × DbWorld W)) [
                | negsuc j ↦ some (true, [], db_close sql e)
                | pos j ↦
                    if j == 0
                    then some (true, [], db_close sql e)
                    else fill texts sql callback unique j text e
              ])
      by_count (negsuc j) e h = (ground arith, u, refl)
      by_count (pos j) e h =
          if-elim (IsLoaded (GivesMore sql text (pos j) e) unique d.handles) (j == 0) _ _
            (ground arith, u, refl)
            (subst
              (λ m.
                IsLoaded (GivesMore sql text (pos j) e) unique m
                  (fill texts sql callback unique j text e))
              {x = e.handles - 1} (omega (arith, h)) (fill-IsLoaded j text e u))

module _ {F W : Type 0} ⦃float : FloatOps F⦄ (texts : Texts F) (sql : Sqlite W) where
  pub get_peer_list-IsLoaded :
      (path : List ℕ) (d : DbWorld W)
      → IsLoaded
          (CountsLess texts sql
            (codes "select count(*) FROM peer")
            (codes "select id, port, ip_addr FROM peer")
            path
            d)
          check_peer_list
          d.handles
          (get_peer_list texts sql path d)
  unfolding get_peer_list is_unique
  get_peer_list-IsLoaded path d =
      load_list-IsLoaded texts sql _ check_peer_list (λ n. list_row-Grows n _ _ _ _) _ _ path d refl

  -- Whatever the database answers, the loading of the sensors closes the database that it has opened,
  -- the ids of the sensors that it returns differ, and it returns none if it fails; or it writes behind
  -- its array, and then the second query has given more rows than the first one has counted.
  pub get_sensor_fts_list-IsLoaded :
      (peers : List Peer) (path : List ℕ) (d : DbWorld W)
      → IsLoaded
          (CountsLess texts sql
            (codes "select count(*) FROM sensor_mapping")
            (codes "select sensor_id, peer_id, remote_id FROM sensor_mapping")
            path
            d)
          check_sensor_fts_list
          d.handles
          (get_sensor_fts_list texts sql peers path d)
  unfolding get_sensor_fts_list is_unique
  get_sensor_fts_list-IsLoaded peers path d =
      load_list-IsLoaded texts sql _ (check_sensor_fts_list {F = F}) (λ n. list_row-Grows n _ _ _ _)
        _ _ path d refl

  pub get_em_list-IsLoaded :
      (peers : List Peer) (path : List ℕ) (d : DbWorld W)
      → IsLoaded
          (CountsLess texts sql
            (codes "select count(*) FROM em_mapping")
            (codes "select em_id, peer_id, remote_id, pwm_rsl FROM em_mapping")
            path
            d)
          check_em_list
          d.handles
          (get_em_list texts sql peers path d)
  unfolding get_em_list is_unique
  get_em_list-IsLoaded peers path d =
      load_list-IsLoaded texts sql _ (check_em_list {F = F}) (λ n. list_row-Grows n _ _ _ _) _ _
        path d refl

-- ===== src/Server/Lifecycle/Listed.antt =====
-- main.c and db.c: the list of programs while programs are started and stopped.
use regonf.Prelude.{
  ℕ, ◌≡◌, ap, ◌∙◌, false, Option, none, List, [], ◌∷◌, ◌++◌, arith, if-elim, All, All-append,
}
use regonf.Prelude.Int.{ℤ, eq_ℤ}
use regonf.ProgList.{Prog, ProgList, Heap, store}
use regonf.ProgList.Chain.{Chain, Fresh, Represents, Chain-store}
use regonf.ProgList.Lookup.{lookup_id, remove_id}

eq_ℤ_sym : (a b : ℤ) → eq_ℤ a b ≡ eq_ℤ b a
eq_ℤ_sym a b = ground arith

module _ {F : Type 0} where
  -- No entry has this id.
  abbrev pub FreshId : ℤ → List (ℕ × Prog F) → Type 0
  FreshId id = All (λ e. eq_ℤ (e.1.id) id ≡ false)

  -- The ids of the entries differ.
  abbrev pub UniqueIds : List (ℕ × Prog F) → Type 0
  UniqueIds [] = Unit
  UniqueIds (e ∷ es) = FreshId (e.1.id) es × UniqueIds es

  -- The heap holds a list of programs of different ids.
  pub record Listed (h : Heap F) (l : ProgList) : Type 0 where
    pub entries : List (ℕ × Prog F)
    pub represents : Represents h l entries
    pub unique : UniqueIds entries

  pub remove_id-FreshId :
      (id k : ℤ) (es : List (ℕ × Prog F)) → FreshId k es → FreshId k (remove_id id es)
  remove_id-FreshId id k [] f = tt
  remove_id-FreshId id k (e ∷ es) f =
      if-elim (FreshId k) (eq_ℤ (e.1.id) id) _ _ f.1 (f.0, remove_id-FreshId id k es f.1)

  pub remove_id-UniqueIds :
      (id : ℤ) (es : List (ℕ × Prog F)) → UniqueIds es → UniqueIds (remove_id id es)
  remove_id-UniqueIds id [] u = tt
  remove_id-UniqueIds id (e ∷ es) u =
      if-elim UniqueIds (eq_ℤ (e.1.id) id) _ _ u.1
        (remove_id-FreshId id (e.1.id) es u.0, remove_id-UniqueIds id es u.1)

  pub lookup_id-FreshId : (id : ℤ) (es : List (ℕ × Prog F)) → lookup_id id es ≡ none → FreshId id es
  lookup_id-FreshId id [] e = tt
  lookup_id-FreshId id (g ∷ es) e = (ground (arith, e), lookup_id-FreshId id es (ground (arith, e)))

  pub UniqueIds-snoc :
      (es : List (ℕ × Prog F)) (a : ℕ) (p : Prog F)
      → UniqueIds es
      → FreshId p.id es
      → UniqueIds (es ++ (a, p) ∷ [])
  UniqueIds-snoc [] a p u f = (tt, tt)
  UniqueIds-snoc (e ∷ es) a p u f =
      (All-append _ es _ u.0 (eq_ℤ_sym p.id (e.1.id) ∙ f.0, tt), UniqueIds-snoc es a p u.1 f.1)

  -- Memory that is not in use is of no entry.
  pub unused-Fresh :
      (h : Heap F) (a : ℕ) (es : List (ℕ × Prog F)) → Chain h es → h a ≡ none → Fresh a es
  unused-Fresh h a [] c e = tt
  unused-Fresh h a (g ∷ es) c e =
      ((λ same. ground (arith, ap h same, c.0, e)), unused-Fresh h a es c.1 e)

  pub Represents-store :
      (h : Heap F) (l : ProgList) (es : List (ℕ × Prog F)) (a : ℕ) (p : Option (Prog F))
      → Represents h l es
      → Fresh a es
      → Represents (store h a p) l es
  Represents-store h l es a p r f = record {
    top = r.top;
    last = r.last;
    counted = r.counted;
    bounded = r.bounded;
    chain = Chain-store h a p es r.chain f;
    distinct = r.distinct;
  }

  -- The entries without the programs of some ids
  abbrev pub remove_ids : List ℤ → List (ℕ × Prog F) → List (ℕ × Prog F)
  remove_ids [] es = es
  remove_ids (id ∷ ids) es = remove_ids ids (remove_id id es)

  pub remove_ids-UniqueIds :
      (ids : List ℤ) (es : List (ℕ × Prog F)) → UniqueIds es → UniqueIds (remove_ids ids es)
  remove_ids-UniqueIds [] es u = u
  remove_ids-UniqueIds (id ∷ ids) es u =
      remove_ids-UniqueIds ids (remove_id id es) (remove_id-UniqueIds id es u)

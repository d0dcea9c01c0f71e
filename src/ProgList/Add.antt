-- ===== src/ProgList/Add.antt =====
-- db.c: what `addProg` does to the list of programs that the heap holds.
use mathlib.Core.Path.{subst}
use regonf.Prelude.{
  ℕ, ◌+◌, ◌-◌, ◌^◌, ◌<◌, ◌≡◌, refl, sym, true, none, some, List, [], ◌∷◌, ◌++◌, arith, All,
  All-append, length, length-append, Succeeds, append_nil,
}
use regonf.ProgList.{Prog, ProgList, Heap, store, set_next, add_prog}
use regonf.ProgList.Chain.{
  final_from, Chain, Fresh, Distinct, Represents, Chain-relink, final-append,
}

module _ {F : Type 0} where
  add_prog-first :
      (a : ℕ) (h : Heap F) (l : ProgList)
      → l.top ≡ none
      → l.length < 2 ^ 31 - 1
      → add_prog a h l
        ≡ some (true, h, record { top = some a; last = some a; length = l.length + 1 })
  unfolding add_prog
  add_prog-first a h l e b = ground (arith, e)

  add_prog-next :
      (a : ℕ) (h : Heap F) (l : ProgList) (t z : ℕ) (q : Prog F)
      → l.top ≡ some t
      → l.last ≡ some z
      → h z ≡ some q
      → l.length < 2 ^ 31 - 1
      → add_prog a h l
        ≡ some (
          true,
          store h z (some (record q { next = some a })),
          record l { last = some a; length = l.length + 1 },
        )
  unfolding add_prog set_next
  add_prog-next a h l t z q et el eq b = ground (arith, et, el, eq)

  apart :
      (a : ℕ) (p : Prog F) (es : List (ℕ × Prog F))
      → Fresh a es
      → All (λ f. Fresh f.0 ((a, p) ∷ [])) es
  apart a p [] f = tt
  apart a p (e ∷ es) f = (((λ same. f.0 (sym same)), tt), apart a p es f.1)

  Distinct-snoc :
      (es : List (ℕ × Prog F)) (a : ℕ) (p : Prog F)
      → Distinct es
      → Fresh a es
      → Distinct (es ++ (a, p) ∷ [])
  Distinct-snoc [] a p d f = (tt, tt)
  Distinct-snoc (e ∷ es) a p d f = (
    All-append _ es ((a, p) ∷ []) d.0 ((λ same. f.0 (sym same)), tt),
    Distinct-snoc es a p d.1 f.1,
  )

  -- A program at an address that the list does not have, with its `next` null, is put at the end of
  -- a list that has room for it, and the call says so.
  pub add_prog_lem :
      (a : ℕ) (p : Prog F) (h : Heap F) (l : ProgList) (es : List (ℕ × Prog F))
      → Represents h l es
      → h a ≡ some (record p { next = none })
      → Fresh a es
      → length es < 2 ^ 31 - 1
      → Succeeds (λ r. (r.0 ≡ true) × Represents r.1 r.2 (es ++ (a, p) ∷ [])) (add_prog a h l)
  add_prog_lem a p h l [] r e f b =
      subst (Succeeds (λ r. (r.0 ≡ true) × Represents r.1 r.2 ((a, p) ∷ [])))
        (sym (add_prog-first a h l r.top (omega (arith, r.counted))))
        (
          refl,
          record {
            top = refl;
            last = refl;
            counted = omega (arith, r.counted);
            bounded = omega arith;
            chain = (e, tt);
            distinct = (tt, tt);
          },
        )
  add_prog_lem a p h l (g ∷ es) r e f b =
      let whole = subst (λ t. Chain h (g ∷ t)) (sym (append_nil es)) r.chain in
      let (q, eq, chain) =
        Chain-relink h g es [] ((a, p) ∷ []) whole r.distinct (e, tt) (apart a p (g ∷ es) f) in
      let z = final_from g.0 es in
      let size = length-append (g ∷ es) ((a, p) ∷ []) in
      subst (Succeeds (λ r. (r.0 ≡ true) × Represents r.1 r.2 (g ∷ es ++ (a, p) ∷ [])))
        (sym (add_prog-next a h l g.0 z q r.top r.last eq (omega (arith, r.counted))))
        (
          refl,
          record {
            top = r.top;
            last = sym (final-append (g ∷ es) (a, p) []);
            counted = omega (arith, r.counted);
            bounded = omega arith;
            chain = chain;
            distinct = Distinct-snoc (g ∷ es) a p r.distinct f;
          },
        )

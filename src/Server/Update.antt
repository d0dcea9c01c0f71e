-- ===== src/Server/Update.antt =====
-- main.c: one handler on the program with an id, in the list that the heap holds.
use mathlib.Core.Path.{subst}
use regonf.Prelude.{
  ℕ, ◌≡◌, ◌≢◌, refl, sym, ap, ◌∙◌, Bool, true, false, Option, none, some, List, [], ◌∷◌, arith,
  if-elim, if◌then◌else◌, length, Succeeds,
}
use regonf.Prelude.Int.{ℤ, eq_ℤ}
use regonf.ProgList.{Prog, ProgList, Heap, store}
use regonf.ProgList.Chain.{
  first, final, Chain, Fresh, Distinct, Represents, store_other, Chain-store,
}
use regonf.ProgList.Lookup.{lookup_id, get_prog_by_id_lem}
use regonf.Server.{Handler, handle_at, handle}

module _ {F W : Type 0} where
  -- A program after a handler
  abbrev pub handled : Handler F W → W → Prog F → Prog F
  handled f w p = let (reg, save, _) = f p.id p.reg p.save w in record p { reg = reg; save = save }

  -- The first entry with the id is handled.
  abbrev pub update_id : ℤ → Handler F W → W → List (ℕ × Prog F) → List (ℕ × Prog F)
  update_id id f w [] = []
  update_id id f w (e ∷ es) =
      let rest = e ∷ update_id id f w es in
      if eq_ℤ (e.1.id) id then (e.0, handled f w (e.1)) ∷ es else rest

module _ {F : Type 0} where
  lookup_id-Fresh :
      (id : ℤ) (a b : ℕ) (es : List (ℕ × Prog F)) → Fresh b es → lookup_id id es ≡ some a → a ≢ b
  lookup_id-Fresh id a b [] f e = ground arith
  lookup_id-Fresh id a b (g ∷ es) f e = ground (arith, f.0, lookup_id-Fresh id a b es f.1)

module _ {F W : Type 0} (id : ℤ) (f : Handler F W) (w : W) where
  update_id-parts :
      (es : List (ℕ × Prog F))
      → (first (update_id id f w es) ≡ first es)
        × (final (update_id id f w es) ≡ final es)
        × (length (update_id id f w es) ≡ length es)
  update_id-parts [] = (refl, refl, refl)
  update_id-parts (e ∷ es) = ground (arith, update_id-parts es)

  update_id-Fresh : (a : ℕ) (es : List (ℕ × Prog F)) → Fresh a es → Fresh a (update_id id f w es)
  update_id-Fresh a [] h = tt
  update_id-Fresh a (e ∷ es) h =
      if-elim (Fresh a) (eq_ℤ e.1.id id) _ _ (h.0, h.1) (h.0, update_id-Fresh a es h.1)

  update_id-Distinct : (es : List (ℕ × Prog F)) → Distinct es → Distinct (update_id id f w es)
  update_id-Distinct [] d = tt
  update_id-Distinct (e ∷ es) d =
      if-elim Distinct (eq_ℤ e.1.id id) _ _ (d.0, d.1)
        (update_id-Fresh e.0 es d.0, update_id-Distinct es d.1)

  -- The heap after the handler has been applied at an address
  abbrev Updated : Heap F → ℕ → List (ℕ × Prog F) → Type 0
  Updated h a es = (p : Prog F) × (h a ≡ some p) × Chain (store h a (some (handled f w p))) es

  Updated-if :
      (b : Bool) (h : Heap F) (e : ℕ × Prog F) (es : List (ℕ × Prog F)) (a : ℕ)
      → Chain h (e ∷ es)
      → Fresh e.0 es
      → (lookup_id id es ≡ some a → Updated h a (update_id id f w es))
      → (if b then some (e.0) else lookup_id id es) ≡ some a
      → Updated h a (if b then (e.0, handled f w (e.1)) ∷ es else e ∷ update_id id f w es)
  Updated-if true h e es a c fr rest eq =
      let same : e.0 ≡ a = ground (arith, eq) in
      subst (λ t. Updated h t ((e.0, handled f w (e.1)) ∷ es)) same
        (record (e.1) { next = first es }, c.0, (ground arith, Chain-store h e.0 _ es c.1 fr))
  Updated-if false h e es a c fr rest eq =
      let (p, at, chain) = rest eq in
      let other = lookup_id-Fresh id a e.0 es fr eq in
      (
        p,
        at,
        (
          store_other h a _ e.0 (λ same. other (sym same))
              ∙ c.0
              ∙ ap (λ t. some (record (e.1) { next = t })) (sym ((update_id-parts es).0)),
          chain,
        ),
      )

  update_id-Updated :
      (h : Heap F) (es : List (ℕ × Prog F)) (a : ℕ)
      → Chain h es
      → Distinct es
      → lookup_id id es ≡ some a
      → Updated h a (update_id id f w es)
  update_id-Updated h [] a c d e = absurd (ground (arith, e))
  update_id-Updated h (g ∷ es) a c d e =
      Updated-if (eq_ℤ g.1.id id) h g es a c d.0 (update_id-Updated h es a c.1 d.1) e

  update_id-none : (es : List (ℕ × Prog F)) → lookup_id id es ≡ none → update_id id f w es ≡ es
  update_id-none [] e = refl
  update_id-none (g ∷ es) e = ground (arith, update_id-none es)

  pub handle_at-found :
      (h : Heap F) (a : ℕ) (p : Prog F)
      → h a ≡ some p
      → handle_at f (some (some a)) h w
        ≡ some (store h a (some (handled f w p)), (f p.id p.reg p.save w).2)
  unfolding handle_at
  handle_at-found h a p e = ground (arith, e)

  pub handle_at_lem :
      (h : Heap F) (l : ProgList) (es : List (ℕ × Prog F)) (found : Option ℕ)
      → Represents h l es
      → lookup_id id es ≡ found
      → Succeeds (λ r. Represents r.0 l (update_id id f w es)) (handle_at f (some found) h w)
  unfolding handle_at
  handle_at_lem h l es none r e = subst (Represents h l) (sym (update_id-none es e)) r
  handle_at_lem h l es (some a) r e =
      let (p, at, chain) = update_id-Updated h es a r.chain r.distinct e in
      let parts = update_id-parts es in
      subst (Succeeds (λ r. Represents r.0 l (update_id id f w es)))
        (sym (handle_at-found h a p at))
        (record {
          top = r.top ∙ sym parts.0;
          last = r.last ∙ sym parts.1;
          counted = r.counted ∙ sym parts.2;
          bounded = omega (arith, parts.2, r.bounded);
          chain = chain;
          distinct = update_id-Distinct es r.distinct;
        })

  -- A row of a request is handled in a list that the heap holds without following a bad pointer. The
  -- first program with the id is handled and the list is otherwise as before; without such a
  -- program nothing changes in it.
  pub handle_lem :
      (h : Heap F) (l : ProgList) (es : List (ℕ × Prog F))
      → Represents h l es
      → Succeeds (λ r. Represents r.0 l (update_id id f w es)) (handle id f h l w)
  unfolding handle
  handle_lem h l es r =
      subst (λ t. Succeeds (λ r. Represents r.0 l (update_id id f w es)) (handle_at f t h w))
        (sym (get_prog_by_id_lem id h l es r)) (handle_at_lem h l es (lookup_id id es) r refl)

-- ===== src/Server/Soundness.antt =====
-- main.c: no command breaks the list of programs or a regulator in it.
use regonf.Prelude.{
  ℕ, ◌≡◌, refl, ap, ◌∙◌, Option, none, some, List, [], ◌∷◌, if-elim, All, Succeeds, map,
}
use regonf.Prelude.Int.{ℤ, eq_ℤ}
use regonf.Float.{FloatOps}
use regonf.Acp.{Link}
use regonf.Regonfhc.{RegOnfHc}
use regonf.Regonfhc.Handlers
use regonf.Regonfhc.Control.Invariant.{IsSound}
use regonf.Regonfhc.Events.{
  enable, disable_reg, step, step-IsSound, set_cooler_delta, set_heater_delta, set_goal,
  set_change_gap, set_em_mode, set_heater_power, set_cooler_power, secure_out_touch,
}
use regonf.ProgList.{Prog, ProgList, Heap}
use regonf.ProgList.Chain.{Represents}
use regonf.Server.{
  Handler, Database, Command, handle, handle_rows, serve, prog_enable, prog_disable, prog_set_save,
  reg_prog_set_heater_power, reg_prog_set_cooler_power, reg_prog_set_goal,
  regonf_prog_set_heater_delta, regonf_prog_set_cooler_delta, reg_prog_set_change_gap,
  reg_prog_set_em_mode,
}
use regonf.Server.Update.{update_id, handle_lem}

module _ {F : Type 0} ⦃float : FloatOps F⦄ where
  abbrev pub AreSound : List (ℕ × Prog F) → Type 0
  AreSound = All (λ e. IsSound e.1.reg)

module _ {F W : Type 0} ⦃float : FloatOps F⦄ where
  abbrev SoundHandler : Handler F W → Type 0
  SoundHandler f =
      (id : ℤ) (reg : RegOnfHc F) (save : ℤ) (w : W) → IsSound reg → IsSound (f id reg save w).0

-- The addresses and the ids of the programs, in their order
abbrev pub keys : {F : Type 0} → List (ℕ × Prog F) → List (ℕ × ℤ)
keys es = map (λ e. (e.0, e.1.id)) es

module _ {F : Type 0} ⦃float : FloatOps F⦄ where
  -- The heap holds a list of the same programs, and their regulators are sound.
  abbrev pub Keeps : ProgList → List (ℕ × Prog F) → Heap F → Type 0
  Keeps l es h =
      (es' : List (ℕ × Prog F)) × Represents h l es' × AreSound es' × (keys es' ≡ keys es)

module _ {F W : Type 0} ⦃float : FloatOps F⦄ (id : ℤ) (f : Handler F W) (w : W) where
  update_id-AreSound :
      SoundHandler f → (es : List (ℕ × Prog F)) → AreSound es → AreSound (update_id id f w es)
  update_id-AreSound sound [] h = tt
  update_id-AreSound sound (e ∷ es) h =
      if-elim AreSound (eq_ℤ e.1.id id) _ _ (sound e.1.id e.1.reg e.1.save w h.0, h.1)
        (h.0, update_id-AreSound sound es h.1)

  update_id-keys : (es : List (ℕ × Prog F)) → keys (update_id id f w es) ≡ keys es
  update_id-keys [] = refl
  update_id-keys (e ∷ es) =
      if-elim (λ t. keys t ≡ keys (e ∷ es)) (eq_ℤ e.1.id id) _ _ refl
        (ap (λ t. (e.0, e.1.id) ∷ t) (update_id-keys es))

module _ {F W A : Type 0} ⦃float : FloatOps F⦄ (key : A → ℤ) (f : A → Handler F W) where
  handle_rows-next :
      (rows : List A) (l : ProgList) (es : List (ℕ × Prog F)) (o : Option (Heap F × W))
      → Succeeds (λ r. Keeps l es r.0) o
      → ((h : Heap F) (w : W)
          → Keeps l es h
          → Succeeds (λ r. Keeps l es r.0) (handle_rows key f rows h l w))
      → Succeeds
          (λ r. Keeps l es r.0)
          (elim o [ none ↦ none | some (h, w) ↦ handle_rows key f rows h l w ])
  handle_rows-next rows l es none k next = k
  handle_rows-next rows l es (some (h, w)) k next = next h w k

  handle_rows-Keeps :
      ((row : A) → SoundHandler (f row))
      → (rows : List A) (h : Heap F) (l : ProgList) (es : List (ℕ × Prog F)) (w : W) → Keeps l es h
      → Succeeds (λ r. Keeps l es r.0) (handle_rows key f rows h l w)
  unfolding handle_rows
  handle_rows-Keeps sound [] h l es w k = k
  handle_rows-Keeps sound (row ∷ rows) h l es w (es1, r, s, e) =
      let one : Succeeds (λ r. Keeps l es r.0) (handle (key row) (f row) h l w) =
        Succeeds-map {Q = Keeps l es} (handle (key row) (f row) h l w)
          (λ h' r'. (
            update_id (key row) (f row) w es1,
            r',
            update_id-AreSound (key row) (f row) w (sound row) es1 s,
            update_id-keys (key row) (f row) w es1 ∙ e,
          ))
          (handle_lem (key row) (f row) w h l es1 r) in
      handle_rows-next rows l es _ one (λ h' w' k. handle_rows-Keeps sound rows h' l es w' k)
    where
      Succeeds-map :
          {P Q : Heap F → Type 0} (o : Option (Heap F × W))
          → ((h : Heap F) → P h → Q h)
          → Succeeds (λ r. P r.0) o
          → Succeeds (λ r. Q r.0) o
      Succeeds-map none g s = s
      Succeeds-map (some r) g s = g r.0 s

module _ {F W : Type 0} ⦃float : FloatOps F⦄ ⦃link : Link F W⦄ (db : Database F W) where
  -- In a list that the heap holds, with sound regulators, a command that changes programs is carried
  -- out without following a bad pointer, whatever its rows are. The heap then holds a list of the same
  -- programs in the same order, and all regulators in it are sound.
  pub serve-Keeps :
      (c : Command F) (h : Heap F) (l : ProgList) (es : List (ℕ × Prog F)) (w : W)
      → Represents h l es
      → AreSound es
      → Succeeds (λ r. Keeps l es r.0) (serve db c h l w)
  unfolding serve step Handlers.enable Handlers.disable_reg
  serve-Keeps (prog_enable rows) h l es w r s =
      handle_rows-Keeps _ _ (λ row id reg save w k. step-IsSound enable reg w k) rows h l es w
        (es, r, s, refl)
  serve-Keeps (prog_disable rows) h l es w r s =
      handle_rows-Keeps _ _ (λ row id reg save w k. step-IsSound disable_reg reg w k) rows h l es w
        (es, r, s, refl)
  serve-Keeps (prog_set_save rows) h l es w r s =
      handle_rows-Keeps _ _ (λ row id reg save w k. k) rows h l es w (es, r, s, refl)
  serve-Keeps (reg_prog_set_heater_power rows) h l es w r s =
      handle_rows-Keeps _ _ (λ row id reg save w k. step-IsSound (set_heater_power row.1) reg w k)
        rows h l es w (es, r, s, refl)
  serve-Keeps (reg_prog_set_cooler_power rows) h l es w r s =
      handle_rows-Keeps _ _ (λ row id reg save w k. step-IsSound (set_cooler_power row.1) reg w k)
        rows h l es w (es, r, s, refl)
  serve-Keeps (reg_prog_set_goal rows) h l es w r s =
      handle_rows-Keeps _ _
        (λ row id reg save w k.
          step-IsSound secure_out_touch (Handlers.set_goal reg row.1) w
            (step-IsSound (set_goal row.1) reg w k))
        rows h l es w (es, r, s, refl)
  serve-Keeps (regonf_prog_set_heater_delta rows) h l es w r s =
      handle_rows-Keeps _ _ (λ row id reg save w k. step-IsSound (set_heater_delta row.1) reg w k)
        rows h l es w (es, r, s, refl)
  serve-Keeps (regonf_prog_set_cooler_delta rows) h l es w r s =
      handle_rows-Keeps _ _ (λ row id reg save w k. step-IsSound (set_cooler_delta row.1) reg w k)
        rows h l es w (es, r, s, refl)
  serve-Keeps (reg_prog_set_change_gap rows) h l es w r s =
      handle_rows-Keeps _ _ (λ row id reg save w k. step-IsSound (set_change_gap row.1) reg w k)
        rows h l es w (es, r, s, refl)
  serve-Keeps (reg_prog_set_em_mode rows) h l es w r s =
      handle_rows-Keeps _ _ (λ row id reg save w k. step-IsSound (set_em_mode row.1) reg w k) rows h
        l es w (es, r, s, refl)

-- ===== src/Cli/Service/Files.antt =====
-- What the writes of a plan of src/main.rs leave in the files.
use punchgate.Common.{
  ◌≡◌, ◌≢◌, ◌∙◌, refl, Option, some, String, List, [], ◌∷◌, ◌++◌, Result, ok, err,
}
use punchgate.Cli.Environment.{Paths}
use punchgate.Cli.Service.{
  Host, ServiceError, Call, write_file, Outcome, called, perform, go_on, run_plan,
}

-- What the source relies on of the file system: a file that was written has its text, and a write
-- to another path leaves it.
pub record HostLaws {paths : Paths} (host : Host paths) : Type 0 where
  pub text_at : paths.FilePath → host.State → Option String
  pub written :
      (p : paths.FilePath) (text : String) (s : host.State)
      → (host.write p text s).0 ≡ ok tt
      → text_at p (host.write p text s).1 ≡ some text
  pub write_keeps :
      (p q : paths.FilePath) (text : String) (s : host.State)
      → p ≢ q
      → text_at q (host.write p text s).1 ≡ text_at q s

module _ (paths : Paths) (host : Host paths) (laws : HostLaws host) where
  open paths use {FilePath}
  open host use {State}
  open laws use {text_at, written, write_keeps}

  abbrev pub Plan : Type 0
  Plan = List (Result ServiceError (Call FilePath))

  abbrev pub HasText : FilePath → String → State → Type 0
  HasText p text s = text_at p s ≡ some text

  -- Calls that all succeed reach a state of the property, from which the later ones are run.
  abbrev pub Passes : (State → Type 0) → Plan → Outcome paths host → Type 0
  Passes P later (err e, t) = Unit {0}
  Passes P later (ok _, t) = (m : State) × P m × (run_plan paths host later m ≡ (ok tt, t))

  -- What holds of the state behind a call that succeeds.
  abbrev IfDone : (State → Type 0) → Outcome paths host → Type 0
  IfDone P (err e, s) = Unit {0}
  IfDone P (ok _, s) = P s

  go_on-Passes :
      (Q P : State → Type 0) (later : Plan) (f : State → Outcome paths host)
      (o : Outcome paths host)
      → IfDone Q o
      → ((s : State) → Q s → Passes P later (f s))
      → Passes P later (go_on paths host f o)
  go_on-Passes Q P later f (err e, s) h k = tt
  go_on-Passes Q P later f (ok _, s) h k = k s h

  here :
      (P : State → Type 0) (later : Plan) (m : State) (o : Outcome paths host)
      → P m
      → run_plan paths host later m ≡ o
      → Passes P later o
  here P later m (err e, t) h r = tt
  here P later m (ok _, t) h r = (m, h, r)

  any_state : (o : Outcome paths host) → IfDone (λ s. Unit {0}) o
  any_state (err e, s) = tt
  any_state (ok _, s) = tt

  called-IfDone :
      (P : State → Type 0) (o : Result String (Unit {0}) × State)
      → (o.0 ≡ ok tt → P o.1)
      → IfDone P (called paths host o)
  unfolding called
  called-IfDone P (err e, s) h = tt
  called-IfDone P (ok _, s) h = h refl

  -- Two writes to different paths, behind any calls: both files have their texts when the calls
  -- behind them are run.
  pub writes-Passes :
      (p q : FilePath) (p_text q_text : String) (before later : Plan) (s : State)
      → q ≢ p
      → Passes
          (λ m. HasText p p_text m × HasText q q_text m)
          later
          (run_plan paths host
            (before ++ ok (write_file p p_text) ∷ ok (write_file q q_text) ∷ later)
            s)
  unfolding run_plan
  writes-Passes p q p_text q_text [] later s apart =
      let Both : State → Type 0 = λ m. HasText p p_text m × HasText q q_text m in
      go_on-Passes (HasText p p_text) Both later
        (run_plan paths host (ok (write_file q q_text) ∷ later))
        (called paths host (host.write p p_text s))
        (called-IfDone (HasText p p_text) (host.write p p_text s) (written p p_text s))
        (λ t h.
          go_on-Passes Both Both later (run_plan paths host later)
            (called paths host (host.write q q_text t))
            (called-IfDone Both (host.write q q_text t)
              (λ e. (write_keeps q p q_text t apart ∙ h, written q q_text t e)))
            (λ m k. here Both later m (run_plan paths host later m) k refl))
  writes-Passes p q p_text q_text (err e ∷ before) later s apart = tt
  writes-Passes p q p_text q_text (ok call ∷ before) later s apart =
      go_on-Passes (λ t. Unit {0}) (λ m. HasText p p_text m × HasText q q_text m) later
        (run_plan paths host
          (before ++ ok (write_file p p_text) ∷ ok (write_file q q_text) ∷ later))
        (perform paths host call s) (any_state (perform paths host call s))
        (λ t _. writes-Passes p q p_text q_text before later t apart)

  pub failed-Passes :
      (P : State → Type 0) (later : Plan) (e : ServiceError) (s : State)
      → Passes P later (run_plan paths host (err e ∷ []) s)
  unfolding run_plan
  failed-Passes P later e s = tt

-- ===== src/Effects.antt =====
-- Calls to what is not the program's own: the database, the cluster, other daemons. A program is a
-- function of the calls made so far; what each call answers is the argument `env`, which sees that
-- history, so that any sequence of successes and failures is covered.
use swifty.Base.{Bool, true, Option, String, List, ◌∷◌, is_none}

-- What the code tells apart in an error: mgo.ErrNotFound, mgo.IsDup, and the rest by its message.
pub data Error : Type 0 where
  not_found duplicate : Error
  failure : String → Error

module _ (C : Type 0) where
  -- The calls made, newest first, each with whether it succeeded.
  abbrev pub Trace : Type 0
  Trace = List (C × Bool)

  abbrev pub Env : Type 0
  Env = Trace → C → Option Error

abbrev pub M : Type 0 → Type 0 → Type 0
M C A = Trace C → A × Trace C

abbrev pub pure : {C A : Type 0} → A → M C A
pure a t = (a, t)

infixl 5 ◌>>=◌ ◌>>◌
abbrev pub ◌>>=◌ : {C A B : Type 0} → M C A → (A → M C B) → M C B
◌>>=◌ m f t = let (a, t') = m t in f a t'

abbrev pub ◌>>◌ : {C A B : Type 0} → M C A → M C B → M C B
m >> k = m >>= λ _. k

abbrev pub call : {C : Type 0} → Env C → C → M C (Option Error)
call env c t = (env t c, (c, is_none (env t c)) ∷ t)

-- A call that gives no answer, such as a step of a metric's gauge.
abbrev pub note : {C : Type 0} → C → M C (Unit {0})
note c t = (tt, (c, true) ∷ t)

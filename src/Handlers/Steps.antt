-- ===== src/Handlers/Steps.antt =====
-- The rules of Engine/Laws for the steps that handlers are made of.
use crypticquest_backend.Base.{String, ℤ, Option, none, some}
use crypticquest_backend.Schema.{Tables}
use crypticquest_backend.Engine.{M, ◌>>=◌}
use crypticquest_backend.Engine.Laws.{Keeps, Keeps-raise}
use crypticquest_backend.Http.{Response, Handler, call, attempt}
use crypticquest_backend.Handlers.Player.{id_or_400, decode}
use crypticquest_backend.Handlers.Account.{given}

module _ {A : Type 0} {P : Tables → Type 0} where
  pub Keeps-id :
      (msg : String) (id : Option ℤ) (f : ℤ → M Response A)
      → ((id : ℤ) → Keeps P (f id))
      → Keeps P (id_or_400 msg id >>= f)
  Keeps-id msg none f k = Keeps-raise _
  Keeps-id msg (some id) f k = record { at = (k id).at }

  pub Keeps-decode :
      {B : Type 0} (body : Option B) (f : B → M Response A)
      → ((b : B) → Keeps P (f b))
      → Keeps P (decode body >>= f)
  Keeps-decode none f k = Keeps-raise _
  Keeps-decode (some b) f k = record { at = (k b).at }

  pub Keeps-given :
      {B : Type 0} (o : Option B) (msg : String) (f : B → M Response A)
      → ((b : B) → Keeps P (f b))
      → Keeps P (given o msg >>= f)
  Keeps-given none msg f k = Keeps-raise _
  Keeps-given (some b) msg f k = record { at = (k b).at }

  pub Keeps-attempt : {E F : Type 0} (m : M E A) → Keeps P m → Keeps P (attempt {F = F} m)
  Keeps-attempt m k = record { at = λ d h. k.at d h }

module _ {P : Tables → Type 0} where
  pub Keeps-call : (h : Handler) → Keeps P h → Keeps P (call h)
  Keeps-call h k = record { at = λ d p. k.at d p }

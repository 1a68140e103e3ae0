-- ===== src/Auth/Options.antt =====
-- NewMiddleware of gobackendkit/auth/middleware.go with its options.
use mathlib.Core.Path.{subst}
use go_project.Base.{ℕ, ◌≡◌, refl, ◌∙◌, List, [], ◌∷◌, Option, none, some, All}
use go_project.Auth.{Principal, Request, Result, Middleware, Tells, handler, handler-Tells}

-- A Middleware before the test of its authenticator, with its writer of the 401 response, which is
-- of the type `W`.
pub record Configured (W : Type 0) : Type 0 where
  pub auth : Option (Request → List ℕ → Result)
  pub write : W
  pub after_auth : Option (Request → Principal → Option Request)

-- Option: any function on the middleware.
abbrev pub AuthOption : Type 0 → Type 0
AuthOption W = Configured W → Configured W

-- WithUnauthorizedWriter and WithAfterAuth; `none` is nil.
abbrev pub with_unauthorized_writer : {W : Type 0} → Option W → AuthOption W
with_unauthorized_writer none m = m
with_unauthorized_writer (some w) m = record m { write = w }

abbrev pub with_after_auth :
    {W : Type 0} → Option (Request → Principal → Option Request) → AuthOption W
with_after_auth hook m = record m { after_auth = hook }

unfoldable pub apply_options : {W : Type 0} → List (AuthOption W) → Configured W → Configured W
apply_options [] m = m
apply_options (opt ∷ opts) m = apply_options opts (opt m)

-- The middleware, or a panic, which is `none`.
abbrev required :
    {W : Type 0} → Option (Request → List ℕ → Result) → Configured W → Option (Middleware × W)
required none m = none
required (some authenticate) m =
    some (record { authenticate = authenticate; after = m.after_auth }, m.write)

-- NewMiddleware
unfoldable pub new_middleware :
    {W : Type 0}
    → W
    → Option (Request → List ℕ → Result)
    → List (AuthOption W)
    → Option (Middleware × W)
new_middleware default_writer authenticator opts =
    let m =
      apply_options opts
        (record { auth = authenticator; write = default_writer; after_auth = none }) in
    required m.auth m

-- The authenticator that is set behind the options: each of them may leave it, replace it or remove
-- it, and sees what those before it have set.
abbrev pub last_auth :
    {W : Type 0}
    → W
    → Option (Request → List ℕ → Result)
    → List (AuthOption W)
    → Option (Request → List ℕ → Result)
last_auth default_writer authenticator opts =
    (apply_options opts
      (record { auth = authenticator; write = default_writer; after_auth = none })).auth

-- The result of NewMiddleware, where `auth` is the authenticator that is left: a panic where there
-- is none; and otherwise a middleware that asks it, of which every request tells what it is to.
abbrev pub Made :
    {W : Type 0} → Option (Request → List ℕ → Result) → Request → Option (Middleware × W) → Type 0
Made none r made = made ≡ none
Made {W} (some authenticate) r made =
    (m : Middleware) × (w : W) × (made ≡ some (m, w))
    × (m.authenticate ≡ authenticate)
    × Tells m r (handler m r)

required-Made :
    {W : Type 0} (auth : Option (Request → List ℕ → Result)) (m : Configured W) (r : Request)
    → Made auth r (required auth m)
required-Made none m r = refl
required-Made (some authenticate) m r =
    let made : Middleware = record { authenticate = authenticate; after = m.after_auth } in
    (made, m.write, refl, refl, handler-Tells made r)

-- An option that leaves the authenticator as it is.
abbrev pub Leaves : {W : Type 0} → AuthOption W → Type 0
Leaves {W} opt = (m : Configured W) → (opt m).auth ≡ m.auth

pub with_unauthorized_writer-Leaves :
    {W : Type 0} (w : Option W) → Leaves (with_unauthorized_writer w)
with_unauthorized_writer-Leaves none m = refl
with_unauthorized_writer-Leaves (some w) m = refl

pub with_after_auth-Leaves :
    {W : Type 0} (hook : Option (Request → Principal → Option Request))
    → Leaves {W = W} (with_after_auth hook)
with_after_auth-Leaves hook m = refl

apply_options-Leaves :
    {W : Type 0} (opts : List (AuthOption W)) (m : Configured W)
    → All Leaves opts
    → (apply_options opts m).auth ≡ m.auth
unfolding apply_options
apply_options-Leaves [] m h = refl
apply_options-Leaves (opt ∷ opts) m (h, hs) = apply_options-Leaves opts (opt m) hs ∙ h m

-- Whatever functions the options are, NewMiddleware panics if they leave no authenticator, and
-- otherwise gives a middleware that asks the one that they leave.
new_middleware-Made :
    {W : Type 0} (writer : W) (authenticator : Option (Request → List ℕ → Result))
    (opts : List (AuthOption W)) (r : Request)
    → Made (last_auth writer authenticator opts) r (new_middleware writer authenticator opts)
unfolding new_middleware
new_middleware-Made writer authenticator opts r =
    required-Made (last_auth writer authenticator opts)
      (apply_options opts (record { auth = authenticator; write = writer; after_auth = none })) r

-- For options that leave the authenticator as it is, which those of WithUnauthorizedWriter and
-- WithAfterAuth do: without an authenticator NewMiddleware panics, and with one it gives a
-- middleware that asks it. Of any request, the wrapped handler sees the principal that it gave for
-- the request's token, with a positive user number and a token that is not empty, changed at most
-- by the hook; and a refusal has one of three reasons, which are that there is no token, that the
-- authenticator gives an error, and that it gives a principal without a number.
pub new_middleware-Tells :
    {W : Type 0} (writer : W) (authenticator : Option (Request → List ℕ → Result))
    (opts : List (AuthOption W)) (r : Request)
    → All Leaves opts
    → Made authenticator r (new_middleware writer authenticator opts)
new_middleware-Tells writer authenticator opts r h =
    subst (λ auth. Made auth r (new_middleware writer authenticator opts))
      (apply_options-Leaves opts
        (record { auth = authenticator; write = writer; after_auth = none }) h)
      (new_middleware-Made writer authenticator opts r)

-- ===== src/Auth.antt =====
-- gobackendkit/auth: the token of a request, the principal in its context, and the middleware. A
-- request is what these read of it; Principal.Extra, which nothing here reads, is left out.
pub mod Options
use mathlib.Core.Path.{subst}
use go_project.Base.{
  ℕ, ◌≡◌, refl, ap, ◌∙◌, sym, List, [], ◌∷◌, Option, none, some, true, false, if◌then◌else◌,
  Bool-cases, inl, inr, ◌⊎◌,
}
use go_project.Int64
use go_project.Text.{codes, is_empty, trim_space, trim_prefix}

pub record Principal : Type 0 where
  pub user_id : ℕ
  pub login : List ℕ
  pub token : List ℕ

-- The headers Authorization and X-Token, the query parameter, and what the context holds at
-- principalKey.
pub record Request : Type 0 where
  pub authorization : List ℕ
  pub query_token : List ℕ
  pub x_token : List ℕ
  pub principal : Option Principal

-- The part of ExtractToken behind the header Authorization.
unfoldable pub other_token : Request → List ℕ
other_token r = let q = trim_space r.query_token in if is_empty q then trim_space r.x_token else q

abbrev pub bearer_token : Request → List ℕ
bearer_token r =
    trim_space
      (trim_prefix (trim_prefix (trim_space r.authorization) (codes "Bearer ")) (codes "bearer "))

-- `none` is the nil request.
unfoldable pub extract_token : Option Request → List ℕ
extract_token none = []
extract_token (some r) =
    if is_empty (trim_space r.authorization)
    then other_token r
    else if is_empty (bearer_token r)
    then other_token r
    else bearer_token r

unfoldable pub with_principal : Request → Principal → Request
with_principal r p = record r { principal = some p }

unfoldable pub principal_from_context : Request → Option Principal
principal_from_context r = elim r.principal [
  | none ↦ none
  | some p ↦ if Int64.lt 0 p.user_id then some p else none
]

unfoldable pub user_id_from_context : Request → Option ℕ
user_id_from_context r = elim (principal_from_context r) [ none ↦ none | some p ↦ some p.user_id ]

-- An *UnauthorizedError in the chain, or none.
pub data AuthError : Type 0 where
  unauthorized : List ℕ → AuthError
  other : AuthError

unfoldable pub new_unauthorized : List ℕ → AuthError
new_unauthorized message =
    let trimmed = trim_space message in
    unauthorized (if is_empty trimmed then codes "未授权" else trimmed)

unfoldable pub message_of : List ℕ → List ℕ
message_of message = if is_empty (trim_space message) then codes "unauthorized" else message

pub data Result : Type 0 where
  ok : Principal → Result
  failed : AuthError → Result

-- The two fields of a Middleware that the program does not give itself.
pub record Middleware : Type 0 where
  pub authenticate : Request → List ℕ → Result
  pub after : Option (Request → Principal → Option Request)

-- The 401 response with its message, or the call of the wrapped handler.
pub data Handled : Type 0 where
  refused : List ℕ → Handled
  next : Request → Handled

abbrev pub failure_message : AuthError → List ℕ
failure_message other = codes "token无效或已过期"
failure_message (unauthorized m) = if is_empty m then codes "token无效或已过期" else m

abbrev pub fill_token : List ℕ → Principal → Principal
fill_token token p = if is_empty p.token then record p { token = token } else p

abbrev pub run_after : Middleware → Request → Principal → Request
run_after m r p = elim m.after [
  | none ↦ r
  | some hook ↦ elim (hook r p) [ none ↦ r | some nr ↦ nr ]
]

unfoldable pub admit : Middleware → Request → List ℕ → Principal → Handled
admit m r token p =
    if Int64.lt 0 p.user_id
    then (let q = fill_token token p in next (run_after m (with_principal r q) q))
    else refused (codes "token无效或用户不存在")

unfoldable pub handler : Middleware → Request → Handled
handler m r =
    let token = extract_token (some r) in
    if is_empty token then refused (codes "未提供认证token") else elim (m.authenticate r token) [
      | failed e ↦ refused (failure_message e)
      | ok p ↦ admit m r token p
    ]

-- What a handled request tells: one that reaches the wrapped handler carries the principal that the
-- authenticator gave for the request's token, with a positive user number and a token that is not
-- empty, changed at most by the hook; a refusal has one of three reasons.
abbrev pub Tells : Middleware → Request → Handled → Type 0
Tells m r (next seen) =
    (p : Principal) × (q : Principal) × (m.authenticate r (extract_token (some r)) ≡ ok p)
    × (q ≡ fill_token (extract_token (some r)) p)
    × (is_empty q.token ≡ false)
    × (principal_from_context (with_principal r q) ≡ some q)
    × (seen ≡ run_after m (with_principal r q) q)
Tells m r (refused message) =
    (is_empty (extract_token (some r)) ≡ true)
    ⊎ ((e : AuthError) × (m.authenticate r (extract_token (some r)) ≡ failed e))
    ⊎ ((p : Principal) × (m.authenticate r (extract_token (some r)) ≡ ok p)
        × (Int64.lt 0 p.user_id ≡ false))

Result-cases : (a : Result) → ((e : AuthError) × (a ≡ failed e)) ⊎ ((p : Principal) × (a ≡ ok p))
Result-cases (failed e) = inl (e, refl)
Result-cases (ok p) = inr (p, refl)

fill_token-user_id : (token : List ℕ) (p : Principal) → (fill_token token p).user_id ≡ p.user_id
fill_token-user_id token p = elim (Bool-cases (is_empty p.token)) [ inl e ↦ rw e | inr e ↦ rw e ]

fill_token-token :
    (token : List ℕ) (p : Principal)
    → is_empty token ≡ false
    → is_empty (fill_token token p).token ≡ false
fill_token-token token p h = elim (Bool-cases (is_empty p.token)) [
  | inl e ↦ rw e h
  | inr e ↦ rw (e, e)
]

principal_from_context-with_principal :
    (r : Request) (p : Principal)
    → Int64.lt 0 p.user_id ≡ true
    → principal_from_context (with_principal r p) ≡ some p
unfolding principal_from_context with_principal
principal_from_context-with_principal r p h = rw h

admit-Tells :
    (m : Middleware) (r : Request) (p : Principal)
    → is_empty (extract_token (some r)) ≡ false
    → m.authenticate r (extract_token (some r)) ≡ ok p
    → Tells m r (admit m r (extract_token (some r)) p)
unfolding admit
admit-Tells m r p token a = elim (Bool-cases (Int64.lt 0 p.user_id)) [
  | inl positive ↦
      let q : Principal = fill_token (extract_token (some r)) p in
      let user : Int64.lt 0 q.user_id ≡ true =
        ap (Int64.lt 0) (fill_token-user_id (extract_token (some r)) p) ∙ positive in
      rw positive (
        p,
        q,
        a,
        refl,
        fill_token-token (extract_token (some r)) p token,
        principal_from_context-with_principal r q user,
        refl,
      )
  | inr negative ↦ rw negative (inr (inr (p, a, negative)))
]

handler_missing :
    (m : Middleware) (r : Request)
    → is_empty (extract_token (some r)) ≡ true
    → handler m r ≡ refused (codes "未提供认证token")
unfolding handler
handler_missing m r h = rw h

handler_failed :
    (m : Middleware) (r : Request) (e : AuthError)
    → is_empty (extract_token (some r)) ≡ false
    → m.authenticate r (extract_token (some r)) ≡ failed e
    → handler m r ≡ refused (failure_message e)
unfolding handler
handler_failed m r e h a = rw (h, a)

handler_ok :
    (m : Middleware) (r : Request) (p : Principal)
    → is_empty (extract_token (some r)) ≡ false
    → m.authenticate r (extract_token (some r)) ≡ ok p
    → handler m r ≡ admit m r (extract_token (some r)) p
unfolding handler
handler_ok m r p h a = rw (h, a)

-- Whatever the middleware and the request, what the handler does tells what came before: the wrapped
-- handler is given a request, changed at most by the hook, with the authenticated principal, a
-- positive user number and a token that is not empty; and a refusal comes from a missing token, a failed authentication, or a user number that
-- is not positive.
pub handler-Tells : (m : Middleware) (r : Request) → Tells m r (handler m r)
handler-Tells m r = elim (Bool-cases (is_empty (extract_token (some r)))) [
  | inl missing ↦
      subst (λ (h : Handled). Tells m r h) (sym (handler_missing m r missing)) (inl missing)
  | inr token ↦ elim (Result-cases (m.authenticate r (extract_token (some r)))) [
    | inl (e, a) ↦
        subst (λ (h : Handled). Tells m r h) (sym (handler_failed m r e token a)) (inr (inl (e, a)))
    | inr (p, a) ↦
        subst (λ (h : Handled). Tells m r h) (sym (handler_ok m r p token a))
          (admit-Tells m r p token a)
  ]
]

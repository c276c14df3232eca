-- ===== src/Gateway/Access.antt =====
-- Whom Authorize lets pass, and how often Forward calls the upstream (application/gateway/service.go).
use stream_weave.Prelude.{
  ◌≡◌, ◌↔◌, ◌⊎◌, refl, sym, ap, ◌∙◌, subst, String, Bool, true, false, not, ◌||◌, Option, none,
  some, List, [], ◌∷◌, All, all_rows, str_eq, Result, ok, err, Bool-cases, inl, inr,
}
use stream_weave.Prelude.Int.{pos, eqb_ℤ}
use stream_weave.Gateway.{
  RoutePolicy, auth_bearer, Actor, allows, is_mutation, limit_key_class, normalized, Error,
}
use stream_weave.Gateway.Policies.{default_policies}
use stream_weave.Gateway.Service.{
  ForwardRequest, Response, Ports, Request, header_token, limit_key_with_actor, limited, admit,
  verified, with_token, authorize_by, authorize, checked, valid_status, first_answer,
  with_service_token, forward,
}

-- `p` is one of the policies.
abbrev pub Among : RoutePolicy → List RoutePolicy → Type 0
Among p [] = ⊥
Among p (q ∷ qs) = (p ≡ q) ⊎ Among p qs

abbrev Sober : RoutePolicy → Type 0
Sober p = is_mutation p ≡ true → p.retry_safe_read ≡ false

each_listed : (p : RoutePolicy) (qs : List RoutePolicy) → All Sober qs → Among p qs → Sober p
each_listed p [] a m = elim m [ ]
each_listed p (q ∷ qs) a (inl e) = subst Sober (sym e) a.0
each_listed p (q ∷ qs) a (inr m) = each_listed p qs a.1 m

sober_if : (b c : Bool) → (not b || not c) ≡ true → b ≡ true → c ≡ false
sober_if true false h e = refl
sober_if true true h e = cc
sober_if false c h e = cc

sober : RoutePolicy → Bool
sober p = not (is_mutation p) || not p.retry_safe_read

each_sober : (qs : List RoutePolicy) → all_rows sober qs ≡ true → All Sober qs
unfolding sober
each_sober [] e = tt
each_sober (q ∷ qs) e = elim (Bool-cases (sober q)) [
  | inl x ↦ (sober_if (is_mutation q) q.retry_safe_read x, each_sober qs (rw x at e))
  | inr x ↦ cc (rw x at e)
]

default_not_retried : (p : RoutePolicy) → Among p default_policies → Sober p
unfolding default_policies is_mutation sober
default_not_retried p m = each_listed p default_policies (each_sober default_policies refl) m

module _ {S : Type 0} (ports : Ports S) where
  -- What Authorize asks of a request on a route that wants a bearer token.
  pub record Granted (request : Request) (policy : RoutePolicy) (source : String) (s : S)
      (actor : Actor) (raw : String) : Type 0 where
    pub header : header_token request.authorization ≡ some raw
    pub claims : Actor
    pub known : (ports.verify raw s).0 ≡ some claims
    pub same : actor ≡ normalized claims
    pub subject : str_eq actor.subject "" ≡ false
    pub type : str_eq actor.type "human" ≡ true
    pub scope : allows policy actor.scopes ≡ true
    pub limit :
        (ports.allow
          (limit_key_with_actor policy source actor)
          (limit_key_class policy)
          (ports.verify raw s).1).0
        ≡ some true

  limited-eq-ok :
      {A : Type 0} (a b : A) (r : Option Bool × S)
      → (limited ports a r).0 ≡ ok b
      → (r.0 ≡ some true) × (a ≡ b)
  limited-eq-ok a b (none, s) h = cc
  limited-eq-ok a b (some false, s) h = cc
  limited-eq-ok a b (some true, s) h = (refl, cc)

  limited-allowed :
      {A : Type 0} (a : A) (r : Option Bool × S) → r.0 ≡ some true → (limited ports a r).0 ≡ ok a
  limited-allowed a (none, s) h = cc
  limited-allowed a (some false, s) h = cc
  limited-allowed a (some true, s) h = refl

  admit-eq-ok :
      (policy : RoutePolicy) (source raw : String) (actor : Actor) (s : S) (a : Actor) (t : String)
      → (admit ports policy source raw actor s).0 ≡ ok (a, t)
      → (str_eq actor.subject "" ≡ false)
        × (str_eq actor.type "human" ≡ true)
        × (allows policy actor.scopes ≡ true)
        × ((ports.allow (limit_key_with_actor policy source actor) (limit_key_class policy) s).0
            ≡ some true)
        × (actor ≡ a)
        × (raw ≡ t)
  admit-eq-ok policy source raw actor s a t h = elim (Bool-cases (str_eq actor.subject "")) [
    | inl x ↦ cc (rw x at h)
    | inr x ↦ elim (Bool-cases (str_eq actor.type "human")) [
      | inr y ↦ cc (rw (x, y) at h)
      | inl y ↦ elim (Bool-cases (allows policy actor.scopes)) [
        | inr z ↦ cc (rw (x, y, z) at h)
        | inl z ↦
            let (r, e) =
              limited-eq-ok (actor, raw) (a, t)
                (ports.allow (limit_key_with_actor policy source actor) (limit_key_class policy) s)
                (rw (x, y, z) at h) in
            (x, y, z, r, ap (λ p. p.0) e, ap (λ p. p.1) e)
      ]
    ]
  ]

  module _ (request : Request) (policy : RoutePolicy) (source : String) (s : S) where
    granted :
        (actor : Actor) (raw : String) (o : Option String)
        → header_token request.authorization ≡ o
        → (with_token ports policy source o s).0 ≡ ok (actor, raw)
        → Granted request policy source s actor raw
    granted actor raw none e h = cc
    granted actor raw (some t) e h = go (ports.verify t s).0 (ports.verify t s).1 refl refl h
      where
        go :
            (o : Option Actor) (s' : S)
            → (ports.verify t s).0 ≡ o
            → (ports.verify t s).1 ≡ s'
            → (verified ports policy source t (o, s')).0 ≡ ok (actor, raw)
            → Granted request policy source s actor raw
        go none s' x y h = cc
        go (some c) s' x y h =
            let (a, b, d, l, same, token) =
              admit-eq-ok policy source t (normalized c) s' actor raw h in
            record {
              header = e ∙ ap some token;
              claims = c;
              known = rw (sym token) x;
              same = sym same;
              subject = rw (sym same) a;
              type = rw (sym same) b;
              scope = rw (sym same) d;
              limit = rw (sym same, sym token, y) l;
            }

    verified-passes :
        (actor c : Actor) (raw : String) (r : Option Actor × S)
        → r.0 ≡ some c
        → actor ≡ normalized c
        → str_eq actor.subject "" ≡ false
        → str_eq actor.type "human" ≡ true
        → allows policy actor.scopes ≡ true
        → (ports.allow (limit_key_with_actor policy source actor) (limit_key_class policy) r.1).0
          ≡ some true
        → (verified ports policy source raw r).0 ≡ ok (actor, raw)
    verified-passes actor c raw (none, s') e same x y z l = cc
    verified-passes actor c raw (some d, s') e same x y z l =
        let found : d ≡ c = cc in
        let norm : normalized d ≡ actor = ap normalized found ∙ sym same in
        subst (λ v. (admit ports policy source raw v s').0 ≡ ok (actor, raw)) (sym norm)
          (rw (x, y, z) (limited-allowed (actor, raw) _ l))

    passes :
        (actor : Actor) (raw : String)
        → Granted request policy source s actor raw
        → (with_token ports policy source (header_token request.authorization) s).0
          ≡ ok (actor, raw)
    passes actor raw g = rw g.header (
        verified-passes actor g.claims raw (ports.verify raw s) g.known g.same g.subject g.type
          g.scope g.limit)

    -- On a route that wants a bearer token, Authorize answers with an actor and a token if and only if
    -- the token is the one of the one Authorization header, the verifier knows it, the actor is what
    -- the verifier says, normalised, has a subject, is human and has a scope that the route asks for
    -- (where it asks for any), and the limiter lets the actor through.
    pub authorize_iff :
        (actor : Actor) (raw : String)
        → policy.auth ≡ auth_bearer
        → ((authorize ports request policy source s).0 ≡ ok (actor, raw))
          ↔ Granted request policy source s actor raw
    unfolding authorize
    authorize_iff actor raw bearer = (
      λ h. granted actor raw (header_token request.authorization) refl (rw bearer at h),
      λ g.
          subst (λ m. (authorize_by ports m request policy source s).0 ≡ ok (actor, raw))
            (sym bearer) (passes actor raw g),
    )

  -- What Forward does to the outside where it calls the upstream once
  abbrev pub one_call : String → Option Actor → ForwardRequest → Option String × S → S
  one_call owner actor request (none, s) = s
  one_call owner actor request (some token, s) = (ports.forward owner token actor request s).1

  checked-state : (r : Result Error (Option Response) × S) → (checked ports r).1 ≡ r.1
  checked-state (err e, s) = refl
  checked-state (ok none, s) = refl
  checked-state (ok (some r), s) = elim (Bool-cases (valid_status ports r.status_code)) [
    | inl x ↦ rw x refl
    | inr x ↦ rw x refl
  ]

  first_answer-state :
      (owner : String) (actor : Option Actor) (request : ForwardRequest) (policy : RoutePolicy)
      (r : Result Error Response × S)
      → policy.retry_safe_read ≡ false
      → (first_answer ports owner actor request policy r).1 ≡ r.1
  first_answer-state owner actor request policy (err e, s) h = refl
  first_answer-state owner actor request policy (ok r, s) h =
      elim (Bool-cases (eqb_ℤ r.status_code (pos 401))) [
        | inl x ↦ rw (x, h) refl
        | inr x ↦ rw x refl
      ]

  with_service_token-state :
      (owner : String) (actor : Option Actor) (request : ForwardRequest) (policy : RoutePolicy)
      (r : Option String × S)
      → policy.retry_safe_read ≡ false
      → (with_service_token ports owner actor request policy r).1 ≡ one_call owner actor request r
  with_service_token-state owner actor request policy (none, s) h = refl
  with_service_token-state owner actor request policy (some token, s) h =
      first_answer-state owner actor request policy
        (checked ports (ports.forward owner token actor request s)) h
      ∙ checked-state (ports.forward owner token actor request s)

  -- A request that changes something is sent to the upstream at most once: on every route of
  -- DefaultPolicies that is a mutation, Forward asks for one service token, and, if it gets one, calls
  -- the upstream with it once and does nothing else, whatever the upstream answers.
  pub mutation_once :
      (owner : String) (actor : Option Actor) (request : ForwardRequest) (policy : RoutePolicy)
      (s : S)
      → Among policy default_policies
      → is_mutation policy ≡ true
      → (forward ports owner actor request policy s).1
        ≡ one_call owner actor request (ports.token s)
  unfolding forward
  mutation_once owner actor request policy s known changes =
      with_service_token-state owner actor request policy (ports.token s)
        (default_not_retried policy known changes)

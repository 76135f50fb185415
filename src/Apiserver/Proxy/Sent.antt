-- ===== src/Apiserver/Proxy/Sent.antt =====
-- What `ServeHTTP` of pkg/apiserver/proxy.go sends, and lemmas on the steps to it.
use spillway.Prelude.{
  ℕ, List, All, ◌≡◌, ◌⊎◌, subst, refl, sym, ap, true, false, Option, none, some, Bool-cases,
  Option-cases, inl, inr, ◌==◌, ==_iff, ok,
}
use spillway.Prelude.Text.{Text, bytes, text_key, text_eq, has_prefix}
use spillway.Apiserver.Request.{Request, User, content}
use spillway.Prelude.Sets.{Sets}
use spillway.Kcp.Api.{GroupVersion}
use spillway.Apiserver.OwnerRefs.{OwnerReference, check_owner_references}
use spillway.Apiserver.OwnerRefs.Writes.{IsInside, check_owner_references-IsInside}
use spillway.Apiserver.Gate.{Unstructured}
use spillway.Apiserver.Gate.Patches.{PatchDecision}
use spillway.Apiserver.Paths.{join_two}
use spillway.Apiserver.Proxy.{
  restored, writes_object, ResourceProxy, Forwarded, target_for, forwarded, send,
}
use spillway.Apiserver.Proxy.Serve.{owners_of, decided, admitted_body}

module _ {World Object : Type 0} (p : ResourceProxy World Object) where
  -- Sent to the workspace, at the request's path below that of the workspace, with its query, and
  -- unchanged but for the caller's credentials, which are dropped; with that deadline; and for the
  -- caller if the proxy impersonates, else for nobody.
  abbrev pub IsSent : Request → (deadline : Option ℕ) → Forwarded → Type 0
  IsSent req deadline f =
      (f.location ≡ record p.location { path = join_two p.location.path req.path })
      × (has_prefix f.location.path p.location.path ≡ true)
      × (f.query ≡ req.query)
      × (f.request ≡ record req { authorization = none })
      × (f.deadline ≡ deadline)
      × (((p.impersonate ≡ false) × (f.impersonated ≡ none))
          ⊎ ((p.impersonate ≡ true)
              × (caller : User) × (req.user ≡ some caller)
              × (f.impersonated ≡ some caller)))

  forwarded-IsSent :
      (req : Request) (deadline : Option ℕ) (user : Option User) (f : Forwarded)
      → has_prefix (target_for p req).path p.location.path ≡ true
      → ((p.impersonate ≡ false) × (user ≡ none))
        ⊎ ((p.impersonate ≡ true)
            × (caller : User) × (req.user ≡ some caller)
            × (user ≡ some caller))
      → forwarded p req deadline user ≡ f
      → IsSent req deadline f
  forwarded-IsSent req deadline user f within caller same =
      subst (IsSent req deadline) same (refl, within, refl, refl, refl, caller)

  pub send-IsSent :
      (req : Request) (deadline : Option ℕ) (f : Forwarded)
      → send p req deadline ≡ ok f
      → IsSent req deadline f
  unfolding send
  send-IsSent req deadline f h =
      elim (Bool-cases (has_prefix (target_for p req).path p.location.path)) [
        | inr outside ↦ absurd (cc (rw (outside, send) at h))
        | inl within ↦ elim (Bool-cases p.impersonate) [
          | inr plain ↦
              let e : ok (forwarded p req deadline none) ≡ ok f = rw (within, plain, send) at h in
              forwarded-IsSent req deadline none f within (inl (plain, refl)) (cc (e))
          | inl impersonates ↦ elim (Option-cases req.user) [
            | inl nobody ↦ absurd (cc (rw (within, impersonates, nobody, send) at h))
            | inr (caller, known) ↦
                let e : ok (forwarded p req deadline (some caller)) ≡ ok f =
                  rw (within, impersonates, known, send) at h in
                forwarded-IsSent req deadline (some caller) f within
                  (inr (impersonates, caller, known, refl)) (cc (e))
          ]
        ]
      ]

module _ {Object : Type 0} (owners : Object → List OwnerReference)
    (parse_group_version : Text → Option GroupVersion) ⦃S : Sets Text⦄ (served : S.Set) where
  -- Each owner of the object that was read, if one was, is of a group that the workspace serves.
  abbrev pub HasOwnersInside : Option Object → Type 0
  HasOwnersInside none = Unit
  HasOwnersInside (some object) = All (IsInside parse_group_version served) (owners object)

  pub owners_of-HasOwnersInside :
      (object : Option Object)
      → check_owner_references parse_group_version served (owners_of owners object) ≡ none
      → HasOwnersInside object
  owners_of-HasOwnersInside none passes = tt
  owners_of-HasOwnersInside (some object) passes =
      (check_owner_references-IsInside parse_group_version served (owners object)).0 passes

-- The request with the body that was read of it, or as it came where none was read.
abbrev pub IsAsRead : (req : Request) (read : Option Text) (last : Request) → Type 0
IsAsRead req none last = last ≡ req
IsAsRead req (some body) last = last ≡ record req { body = content body }

restored-IsAsRead : (req : Request) (read : Option Text) → IsAsRead req read (restored req read)
restored-IsAsRead req none = refl
restored-IsAsRead req (some body) = refl

module _ {Object : Type 0} (u : Unstructured Object) where
  -- The request with the object that admission answers, encoded, as its body; with the body that was
  -- read of it where admission answers none.
  abbrev pub IsWritten :
      (req : Request) (read : Option Text) (out : Option Object) (last : Request) → Type 0
  IsWritten req read none last = IsAsRead req read last
  IsWritten req read (some mutated) last =
      (text : Text) × (u.encode mutated ≡ some text) × (last ≡ record req { body = content text })

  pub admitted_body-IsWritten :
      (req last : Request) (read : Option Text) (out : Option Object)
      → admitted_body u req read out ≡ ok last
      → IsWritten req read out last
  unfolding admitted_body
  admitted_body-IsWritten req last read none h =
      let e : restored req read ≡ last = cc (h) in
      subst (IsAsRead req read) e (restored-IsAsRead req read)
  admitted_body-IsWritten req last read (some mutated) h = elim (Option-cases (u.encode mutated)) [
    | inl fails ↦ absurd (cc (rw (fails, admitted_body) at h))
    | inr (encoded, good) ↦
        let e : restored req (some encoded) ≡ last = cc (rw (good, admitted_body) at h) in
        (encoded, good, sym e)
  ]

  method-IsAsRead :
      (req last : Request) (read : Option Text) → IsAsRead req read last → last.method ≡ req.method
  method-IsAsRead req last none same = ap (λ r. r.method) same
  method-IsAsRead req last (some body) same = ap (λ r. r.method) same

  pub method-IsWritten :
      (req last : Request) (read : Option Text) (out : Option Object)
      → IsWritten req read out last
      → last.method ≡ req.method
  method-IsWritten req last read none written = method-IsAsRead req last read written
  method-IsWritten req last read (some mutated) (text, _, same) = ap (λ r. r.method) same

-- The patch as it came where there is no decision or one without a replacement, else an update with
-- the replacement.
abbrev pub IsPatched :
    (req : Request) (read : Option Text) (out : Option PatchDecision) (last : Request) → Type 0
IsPatched req read none last = IsAsRead req read last
IsPatched req read (some decision) last =
    ((decision.replacement ≡ none) × IsAsRead req read last)
    ⊎ ((body : Text) × (decision.replacement ≡ some body)
        × (last ≡ record req {
          method = bytes "PUT";
          content_type = bytes "application/json";
          body = content body;
        }))

pub decided-IsPatched :
    (req : Request) (read : Option Text) (out : Option PatchDecision)
    → IsPatched req read out (decided req read out)
decided-IsPatched req read none = restored-IsAsRead req read
decided-IsPatched req read (some decision) = elim (Option-cases decision.replacement) [
  | inl kept ↦ inl (kept, rw kept (restored-IsAsRead req read))
  | inr (body, replaced) ↦ inr (body, replaced, rw replaced refl)
]

-- A write is not a patch.
pub writes_object_lem :
    (method : Text) → writes_object method ≡ true → (method == bytes "PATCH") ≡ false
unfolding text_eq
writes_object_lem method h = elim (Bool-cases (method == bytes "PATCH")) [
  | inr other ↦ other
  | inl patch ↦ absurd (cc (rw ((==_iff method (bytes "PATCH")).0 patch) at h))
]

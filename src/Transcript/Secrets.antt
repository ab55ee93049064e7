-- ===== src/Transcript/Secrets.antt =====
-- transcript.rs: passwords in a summary.
use agent_rdp.Base.{
  ℕ, ◌≡◌, refl, ap, inl, inr, Bool, true, false, ◌&&◌, some, arith, if◌then◌else◌, Bool-cases,
  Option-cases, Text, codes, text_eq, text_eq→eq, text_eq_refl,
}
use agent_rdp.Json.{
  Json, Items, Members, null, bool, num, other_num, str, array, object, nil, cons, end, member, get,
  get_member,
}
use agent_rdp.Transcript.{
  is_password, is_payload, redact, redact_items, redact_members, cap, summarize,
}

abbrev is_blank : Json → Bool
is_blank (str s) = text_eq s (codes "***")
is_blank v = false

-- Each member named `password` is blank, at any depth, but inside what stands under a payload's
-- name and is no string.
unfoldable mutual
  pub is_clean : Json → Bool
  is_clean (object ms) = are_clean ms
  is_clean (array js) = all_clean js
  is_clean v = true

  pub all_clean : Items → Bool
  all_clean nil = true
  all_clean (cons v js) = is_clean v && all_clean js

  pub are_clean : Members → Bool
  are_clean end = true
  are_clean (member key v ms) =
      (if is_password key then is_blank v else if is_payload key then true else is_clean v)
      && are_clean ms

mutual
  unfolding is_clean all_clean are_clean redact redact_items redact_members text_eq

  redact-is_clean : (v : Json) → is_clean (redact v) ≡ true
  redact-is_clean null = refl
  redact-is_clean (bool b) = refl
  redact-is_clean (num n) = refl
  redact-is_clean (other_num t) = refl
  redact-is_clean (str s) = refl
  redact-is_clean (array js) = items-clean js
  redact-is_clean (object ms) = members-clean ms

  items-clean : (js : Items) → all_clean (redact_items js) ≡ true
  items-clean nil = refl
  items-clean (cons v js) = ground (arith, redact-is_clean v, items-clean js)

  members-clean : (ms : Members) → are_clean (redact_members ms) ≡ true
  members-clean end = refl
  members-clean (member key v ms) =
      ground (arith, redact-is_clean v, members-clean ms, text_eq_refl (codes "***"))

and-right : (a b : Bool) → (a && b) ≡ true → b ≡ true
and-right true b h = h
and-right false b h = cc

if_not : {A : Type 0} {z : A} (b : Bool) (x y : A) → b ≡ false → (if b then x else y) ≡ z → y ≡ z
if_not true x y e h = cc
if_not false x y e h = h

-- A member that is found under a name of another kind is clean.
get_member-is_clean :
    (k : Text) (ms : Members) (v : Json)
    → is_password k ≡ false
    → is_payload k ≡ false
    → are_clean ms ≡ true
    → get_member k ms ≡ some v
    → is_clean v ≡ true
unfolding get_member is_clean all_clean are_clean
get_member-is_clean k end v p b c h = cc
get_member-is_clean k (member j w ms) v p b c h = elim (Bool-cases (text_eq j k)) [
  | inr e ↦
      get_member-is_clean k ms v p b (and-right _ (are_clean ms) c) (if_not (text_eq j k) _ _ e h)
  | inl e ↦ (let same = text_eq→eq j k e in ground (arith, ap is_password same, ap is_payload same))
]

get-is_clean :
    (k : Text) (value v : Json)
    → is_password k ≡ false
    → is_payload k ≡ false
    → is_clean value ≡ true
    → get k value ≡ some v
    → is_clean v ≡ true
unfolding get is_clean all_clean are_clean
get-is_clean k (object ms) v p b c h = get_member-is_clean k ms v p b c h
get-is_clean k null v p b c h = cc
get-is_clean k (bool x) v p b c h = cc
get-is_clean k (num x) v p b c h = cc
get-is_clean k (other_num x) v p b c h = cc
get-is_clean k (str x) v p b c h = cc
get-is_clean k (array x) v p b c h = cc

-- No password reaches the transcript: in the summary of any request, cut short or not, each member
-- named `password` is blank, at any depth, but inside a payload that is no string.
pub summarize-is_clean : (size : Json → ℕ) (value : Json) → is_clean (summarize size value) ≡ true
unfolding summarize cap is_clean all_clean are_clean text_eq is_password is_payload
summarize-is_clean size value =
    let whole = redact value in
    elim (Option-cases (get (codes "type") whole)) [
      | inr (v, e) ↦ ground (
        arith,
        redact-is_clean value,
        get-is_clean (codes "type") whole v refl refl (redact-is_clean value) e,
      )
      | inl e ↦ elim (Option-cases (get (codes "op") whole)) [
        | inr (v, f) ↦ ground (
          arith,
          redact-is_clean value,
          get-is_clean (codes "op") whole v refl refl (redact-is_clean value) f,
        )
        | inl f ↦ ground (arith, redact-is_clean value)
      ]
    ]

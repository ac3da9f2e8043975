-- ===== src/StrictJson/Unique.antt =====
-- What `strict_json_parse` returns has no repeated member name, at any depth.
use mpas.Prelude.{
  ℕ, zero, suc, ◌+◌, ◌≡◌, refl, String, false, Option, none, some, List, [], ◌∷◌, map, All, arith,
  option_both, bool_both, eq_iff,
}
use mpas.Prelude.Eq.{includes, string_eq}
use mpas.Prelude.Distinct.{IsDistinct}
use mpas.Prelude.Result.{Result, ok, err, ◌>>=◌}
use mpas.Mpas.Json.{Json, obj, arr, member, end, cons, nil, Members, Items, members}
use mpas.StrictJson.Scan.{
  Token, ended, unexpected, object_opens, array_opens, string_starts, true_read, false_read,
  null_read, number_read, skip_whitespace, eat, next_token,
}
use mpas.StrictJson.{
  Builtins, ParseFault, found, fuel_for, parse_string, object_behind, array_behind, value_at,
  checked_key, parse_value, parse_members, parse_items, at_end, strict_json_parse,
}

module _ {N : Type 0} where
  abbrev pub keys : Members N → List String
  keys ms = map (λ (m : String × Json N). m.0) (members ms)

  unfoldable mutual
    pub IsStrict : Json N → Type 0
    IsStrict (arr vs) = AreStrict vs
    IsStrict (obj ms) = IsDistinct (keys ms) × HaveStrict ms
    IsStrict _ = Unit

    pub AreStrict : Items N → Type 0
    AreStrict nil = Unit
    AreStrict (cons v vs) = IsStrict v × AreStrict vs

    pub HaveStrict : Members N → Type 0
    HaveStrict end = Unit
    HaveStrict (member k v ms) = IsStrict v × HaveStrict ms

  -- Members whose names are new, distinct, and whose values are strict.
  abbrev AreNew : List String → Members N → Type 0
  AreNew seen ms =
      All (λ k. includes k seen ≡ false) (keys ms) × IsDistinct (keys ms) × HaveStrict ms

-- The reader failed, or read a value that satisfies `P`.
data Yields {A : Type 0} (P : A → Type 0) : Result ParseFault (A × String) → Type 0 where
  value : {a : A} {rest : String} → P a → Yields P (ok (a, rest))
  failed : {e : ParseFault} → Yields P (err e)

bind-Yields :
    {A B : Type 0} (P : A → Type 0) (Q : B → Type 0) (m : Result ParseFault (A × String))
    (f : A × String → Result ParseFault (B × String))
    → Yields P m
    → ((a : A) (rest : String) → P a → Yields Q (f (a, rest)))
    → Yields Q (m >>= f)
bind-Yields P Q _ f (value {a = a} {rest = rest} h) g = g a rest h
bind-Yields P Q _ f failed g = failed

found-Yields :
    {A : Type 0} (Q : A → Type 0) (o : Option String) (a : A)
    → Q a
    → Yields Q (found o >>= λ rest. ok (a, rest))
unfolding found
found-Yields Q none a h = failed
found-Yields Q (some rest) a h = value h

anything : {A : Type 0} (m : Result ParseFault (A × String)) → Yields (λ _. Unit) m
anything (ok (a, rest)) = value tt
anything (err e) = failed

-- Names that are not among `k ∷ seen` are not among `seen`, and none of them is `k`.
All-tail :
    (k : String) (seen ks : List String)
    → All (λ j. includes j (k ∷ seen) ≡ false) ks
    → All (λ j. includes j seen ≡ false) ks × (includes k ks ≡ false)
All-tail k seen [] h = (tt, refl)
All-tail k seen (j ∷ ks) (h, hs) =
    let (rest, other) = All-tail k seen ks hs in
    ((ground (arith, h), rest), ground (arith, h, other, eq_iff j k, eq_iff k j))

module _ (js : Builtins) where
  checked_key-Yields :
      (path : String) (seen : List String) (m : Result ParseFault (String × String))
      → Yields (λ k. includes k seen ≡ false) (checked_key js path seen m)
  checked_key-Yields path seen (err e) = failed
  checked_key-Yields path seen (ok (key, rest)) =
      bool_both (Yields (λ k. includes k seen ≡ false)) (includes key seen) (λ _. failed)
        (λ new. found-Yields (λ k. includes k seen ≡ false) _ key new)

  value_at-Yields :
      (ms : String → Result ParseFault (Members js.Num × String))
      (vs : String → Result ParseFault (Items js.Num × String)) (t : Token)
      → ((rest : String) → Yields (AreNew []) (ms rest) × Yields AreStrict (vs rest))
      → Yields IsStrict (value_at js ms vs t)
  unfolding value_at object_behind array_behind IsStrict
  value_at-Yields ms vs (object_opens rest) loops =
      option_both (Yields IsStrict) (eat b'}' (skip_whitespace rest))
        (λ _.
          bind-Yields (AreNew []) IsStrict (ms rest) _ ((loops rest).0)
            (λ a last (new, once, strict). value (once, strict)))
        (λ behind e. value (tt, tt))
  value_at-Yields ms vs (array_opens rest) loops =
      option_both (Yields IsStrict) (eat b']' (skip_whitespace rest))
        (λ _. bind-Yields AreStrict IsStrict (vs rest) _ ((loops rest).1) (λ a last h. value h))
        (λ behind e. value tt)
  value_at-Yields ms vs (string_starts rest) loops =
      bind-Yields (λ _. Unit) IsStrict (parse_string js rest) _ (anything _) (λ t last h. value tt)
  value_at-Yields ms vs (true_read rest) loops = value tt
  value_at-Yields ms vs (false_read rest) loops = value tt
  value_at-Yields ms vs (null_read rest) loops = value tt
  value_at-Yields ms vs (number_read number rest) loops = value tt
  value_at-Yields ms vs ended loops = failed
  value_at-Yields ms vs unexpected loops = failed

  mutual
    unfolding parse_value IsStrict

    value-Yields : (f : ℕ) (path text : String) → Yields IsStrict (parse_value js f path text)
    value-Yields zero path text = failed
    value-Yields (suc f) path text =
        value_at-Yields (parse_members js f path []) (parse_items js f path 0)
          (next_token (skip_whitespace text))
          (λ rest. (members-Yields f path [] rest, items-Yields f path 0 rest))

    members-Yields :
        (f : ℕ) (path : String) (seen : List String) (text : String)
        → Yields (AreNew seen) (parse_members js f path seen text)
    members-Yields zero path seen text = failed
    members-Yields (suc f) path seen text =
        bind-Yields _ (AreNew seen) _ _
          (checked_key-Yields path seen (parse_string js (skip_whitespace text)))
          (λ key colon fresh.
            bind-Yields IsStrict (AreNew seen) _ _ (value-Yields f _ colon) (λ v rest strict.
              option_both (Yields (AreNew seen)) (eat b',' (skip_whitespace rest))
                (λ _. found-Yields (AreNew seen) _ _ ((fresh, tt), (refl, tt), (strict, tt)))
                (λ behind e.
                  bind-Yields (AreNew (key ∷ seen)) (AreNew seen) _ _
                    (members-Yields f path (key ∷ seen) behind)
                    (λ more last (new, distinct_keys, more_strict).
                      let (old, other) = All-tail key seen (keys more) new in
                      value ((fresh, old), (other, distinct_keys), (strict, more_strict))))))

    items-Yields :
        (f : ℕ) (path : String) (i : ℕ) (text : String)
        → Yields AreStrict (parse_items js f path i text)
    items-Yields zero path i text = failed
    items-Yields (suc f) path i text =
        bind-Yields IsStrict AreStrict _ _ (value-Yields f _ text) (λ v rest strict.
          option_both (Yields AreStrict) (eat b',' (skip_whitespace rest))
            (λ _. found-Yields AreStrict _ _ (strict, tt))
            (λ behind e.
              bind-Yields AreStrict AreStrict _ _ (items-Yields f path (i + 1) behind)
                (λ more last more_strict. value (strict, more_strict))))

  ok_inj :
      {v w : Json js.Num} → ok v ≡ (let r : Result ParseFault (Json js.Num) = ok w in r) → v ≡ w
  ok_inj h = cc

  err_ne_ok : {e : ParseFault} {w : Json js.Num} → ¬ (err e ≡ ok w)
  err_ne_ok h = cc

  at_end-IsStrict :
      (v w : Json js.Num) (s : String) → IsStrict v → at_end js v s ≡ ok w → IsStrict w
  at_end-IsStrict v w String.[] strict h = rw (← ok_inj h) strict
  at_end-IsStrict v w (String.◌∷◌ c s) strict h = absurd (err_ne_ok h)

  whole-IsStrict :
      (m : Result ParseFault (Json js.Num × String)) (w : Json js.Num)
      → Yields IsStrict m
      → (m >>= λ r. at_end js r.0 (skip_whitespace r.1)) ≡ ok w
      → IsStrict w
  whole-IsStrict _ w (value {a = v} {rest = rest} strict) h = at_end-IsStrict v w _ strict h
  whole-IsStrict _ w failed h = absurd (err_ne_ok h)

  -- No object in a value that the parser returns has two members of one name, at any depth.
  pub strict_json_parse-IsStrict :
      (text : String) (v : Json js.Num) → strict_json_parse js text ≡ ok v → IsStrict v
  unfolding strict_json_parse
  strict_json_parse-IsStrict text v h = whole-IsStrict _ v (value-Yields (fuel_for text) "$" text) h

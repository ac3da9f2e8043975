-- ===== src/StrictJson/Total.antt =====
-- The fuel of `strict_json_parse` is enough.
use Prim.Native.String
use mpas.Prelude.{
  ℕ, zero, suc, ◌+◌, ◌*◌, ◌≤◌, ◌<◌, ◌≡◌, ◌≢◌, refl, String, true, false, Option, none, some, List,
  [], ◌∷◌, arith, option_both,
}
use mpas.Prelude.Chars.{size}
use mpas.Prelude.Eq.{includes, string_eq}
use mpas.Prelude.Result.{Result, ok, err, ◌>>=◌}
use mpas.Mpas.Json.{Json, Members, Items}
use mpas.StrictJson.Scan.{
  Split, Token, ended, unexpected, object_opens, array_opens, string_starts, true_read, false_read,
  null_read, number_read, skip_whitespace, eat, scan_string, next_token,
}
use mpas.StrictJson.Scan.Sizes.{
  Within, size-skip_whitespace, size-eat, size-scan_string, TokenWithin, next_token-TokenWithin,
}
use mpas.StrictJson.{
  Builtins, ParseFault, duplicate_key, syntax_error, out_of_fuel, found, expect, fuel_for, decoded,
  parse_string, object_behind, array_behind, value_at, checked_key, parse_value, parse_members,
  parse_items, at_end, strict_json_parse,
}

-- The reader did not run out of fuel, and left no more than `n` characters.
data Fits {A : Type 0} (n : ℕ) : Result ParseFault (A × String) → Type 0 where
  read : {a : A} {rest : String} → size rest ≤ n → Fits n (ok (a, rest))
  repeated : {key path : String} → Fits n (err (duplicate_key key path))
  malformed : Fits n (err syntax_error)

Within-le : (n k : ℕ) (o : Option Split) → n ≤ k → Within n o → Within k o
Within-le n k none l h = tt
Within-le n k (some r) l h = omega (arith, l, h)

bind-Fits :
    {A B : Type 0} (n k : ℕ) (m : Result ParseFault (A × String))
    (f : A × String → Result ParseFault (B × String))
    → Fits n m
    → ((a : A) (rest : String) → size rest ≤ n → Fits k (f (a, rest)))
    → Fits k (m >>= f)
bind-Fits n k _ f (read {a = a} {rest = rest} h) g = g a rest h
bind-Fits n k _ f repeated g = repeated
bind-Fits n k _ f malformed g = malformed

size-eat_space : (c : ℕ) (s r : String) → eat c (skip_whitespace s) ≡ some r → size r + 1 ≤ size s
size-eat_space c s r h = omega (arith, size-eat c (skip_whitespace s) r h, size-skip_whitespace s)

found-Fits :
    {A : Type 0} (n : ℕ) (o : Option String) (f : String → Result ParseFault (A × String))
    → ((rest : String) → o ≡ some rest → Fits n (f rest))
    → Fits n (found o >>= f)
unfolding found
found-Fits n none f h = malformed
found-Fits n (some rest) f h = h rest refl

expect-Fits :
    {A : Type 0} (c : ℕ) (s : String) (a : A) (n : ℕ)
    → size s ≤ n
    → Fits n (expect c s >>= λ behind. ok (a, behind))
expect-Fits c s a n h =
    found-Fits n _ _ (λ rest e. read (omega (arith, h, size-eat_space c s rest e)))

module _ (js : Builtins) where
  decoded-Fits : (n : ℕ) (o : Option Split) → Within n o → Fits n (decoded js o)
  unfolding decoded
  decoded-Fits n none h = malformed
  decoded-Fits n (some (literal, rest)) h =
      option_both (Fits n) (js.string_literal (String.◌++◌ "\"" literal)) (λ _. malformed)
        (λ text _. read h)

  parse_string-Fits : (s : String) (n : ℕ) → size s ≤ n → Fits n (parse_string js s)
  unfolding parse_string
  parse_string-Fits s n h = found-Fits n (eat b'"' s) _ (λ rest e.
      let o = scan_string false rest in
      let small : size rest ≤ n = omega (arith, h, size-eat b'"' s rest e) in
      decoded-Fits n o (Within-le (size rest) n o small (size-scan_string rest false)))

  checked_key-Fits :
      (path : String) (seen : List String) (n : ℕ) (m : Result ParseFault (String × String))
      → Fits n m
      → Fits n (checked_key js path seen m)
  checked_key-Fits path seen n m h = bind-Fits n n m _ h (λ key rest small.
      elim (includes key seen)
        as (λ b. Fits n (elim b [
          | true ↦ err (duplicate_key key path)
          | false ↦ expect b':' rest >>= λ value. ok (key, value)
        ])) [ true ↦ repeated | false ↦ expect-Fits b':' rest key n small ])

  value_at-Fits :
      (n : ℕ) (members : String → Result ParseFault (Members js.Num × String))
      (items : String → Result ParseFault (Items js.Num × String)) (t : Token)
      → TokenWithin n t
      → ((rest : String) → size rest + 1 ≤ n → Fits n (members rest) × Fits n (items rest))
      → Fits n (value_at js members items t)
  unfolding value_at object_behind array_behind
  value_at-Fits n members items (object_opens rest) h loops =
      option_both (Fits n) (eat b'}' (skip_whitespace rest))
        (λ _. bind-Fits n n (members rest) _ ((loops rest h).0) (λ ms last k. read k))
        (λ behind e. read (omega (arith, h, size-eat_space b'}' rest behind e)))
  value_at-Fits n members items (array_opens rest) h loops =
      option_both (Fits n) (eat b']' (skip_whitespace rest))
        (λ _. bind-Fits n n (items rest) _ ((loops rest h).1) (λ vs last k. read k))
        (λ behind e. read (omega (arith, h, size-eat_space b']' rest behind e)))
  value_at-Fits n members items (string_starts rest) h loops =
      bind-Fits n n (parse_string js rest) _ (parse_string-Fits rest n h) (λ t last k. read k)
  value_at-Fits n members items (true_read rest) h loops = read h
  value_at-Fits n members items (false_read rest) h loops = read h
  value_at-Fits n members items (null_read rest) h loops = read h
  value_at-Fits n members items (number_read number rest) h loops = read h
  value_at-Fits n members items ended h loops = malformed
  value_at-Fits n members items unexpected h loops = malformed

  Fits-le :
      {A : Type 0} (n k : ℕ) (m : Result ParseFault (A × String)) → n ≤ k → Fits n m → Fits k m
  Fits-le n k _ l (read h) = read (omega (arith, h, l))
  Fits-le n k _ l repeated = repeated
  Fits-le n k _ l malformed = malformed

  mutual
    unfolding parse_value

    value-Fits :
        (f : ℕ) (path text : String)
        → 2 * size text < f
        → Fits (size text) (parse_value js f path text)
    value-Fits zero path text h = absurd (omega (arith, h))
    value-Fits (suc f) path text h =
        let token = next_token (skip_whitespace text) in
        let small = size-skip_whitespace text in
        Fits-le (size (skip_whitespace text)) (size text) _ small (
          value_at-Fits (size (skip_whitespace text)) (parse_members js f path [])
            (parse_items js f path 0) token (next_token-TokenWithin (skip_whitespace text))
            (λ rest k. (
              Fits-le (size rest) _ _ (omega (arith, k))
                  (members-Fits f path [] rest (omega (arith, h, k, small))),
              Fits-le (size rest) _ _ (omega (arith, k))
                  (items-Fits f path 0 rest (omega (arith, h, k, small))),
            )))

    members-Fits :
        (f : ℕ) (path : String) (seen : List String) (text : String)
        → 2 * size text + 1 < f
        → Fits (size text) (parse_members js f path seen text)
    members-Fits zero path seen text h = absurd (omega (arith, h))
    members-Fits (suc f) path seen text h =
        bind-Fits (size text) (size text) _ _
          (checked_key-Fits path seen (size text) _
            (parse_string-Fits (skip_whitespace text) (size text) (size-skip_whitespace text)))
          (λ key colon k.
            bind-Fits (size colon) (size text) _ _ (value-Fits f _ colon (omega (arith, h, k)))
              (λ value rest small.
                option_both (Fits (size text)) (eat b',' (skip_whitespace rest))
                  (λ _. expect-Fits b'}' rest _ (size text) (omega (arith, small, k)))
                  (λ behind e.
                    let shorter = size-eat_space b',' rest behind e in
                    bind-Fits (size behind) (size text) _ _
                      (members-Fits f path (key ∷ seen) behind
                        (omega (arith, h, small, k, shorter)))
                      (λ more last l. read (omega (arith, l, k, small, shorter))))))

    items-Fits :
        (f : ℕ) (path : String) (i : ℕ) (text : String)
        → 2 * size text + 1 < f
        → Fits (size text) (parse_items js f path i text)
    items-Fits zero path i text h = absurd (omega (arith, h))
    items-Fits (suc f) path i text h =
        bind-Fits (size text) (size text) _ _ (value-Fits f _ text (omega (arith, h)))
          (λ value rest small.
            option_both (Fits (size text)) (eat b',' (skip_whitespace rest))
              (λ _. expect-Fits b']' rest _ (size text) small)
              (λ behind e.
                let shorter = size-eat_space b',' rest behind e in
                bind-Fits (size behind) (size text) _ _
                  (items-Fits f path (i + 1) behind (omega (arith, h, small, shorter)))
                  (λ more last k. read (omega (arith, k, small, shorter)))))

  at_end-ne : (v : Json js.Num) (s : String) → at_end js v s ≢ err out_of_fuel
  at_end-ne v String.[] e = cc
  at_end-ne v (String.◌∷◌ c s) e = cc

  whole-ne :
      (n : ℕ) (m : Result ParseFault (Json js.Num × String))
      → Fits n m
      → (m >>= λ r. at_end js r.0 (skip_whitespace r.1)) ≢ err out_of_fuel
  whole-ne n _ (read {a = v} {rest = rest} h) e = at_end-ne v (skip_whitespace rest) e
  whole-ne n _ repeated e = cc
  whole-ne n _ malformed e = cc

  -- The parser gives a value or one of its two errors on every text: the fuel, twice the length of
  -- the text and two, never runs out.
  pub strict_json_parse_returns : (text : String) → strict_json_parse js text ≢ err out_of_fuel
  unfolding strict_json_parse
  strict_json_parse_returns text =
      whole-ne (size text) _ (value-Fits (fuel_for text) "$" text (omega arith))

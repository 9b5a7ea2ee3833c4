-- ===== src/Stripe/Keys.antt =====
-- The idempotency keys of internal/stripeclient/client.go: a list of requests with one for each key.
use Prim.Native.Char.{Char}
use Prim.Native.String.{◌++◌ as append, ◌∷◌ as cons}
use Prim.Native.String.append as append_clauses
use high_throughput_payments.Base.{
  Option, some, true, Bool, not, ◌&&◌, ℕ, ◌≤◌, String, ◌==◌, string_eq, ==_sound, ==_refl, ◌≡◌,
  refl, sym, ap, subst, ◌∙◌, ◌⊎◌, inl, inr, false, Bool-cases, List, [], ◌∷◌, any, count, All,
  if_split, ◌+◌, arith,
}

-- two requests with one idempotency key; a missing key, or an empty one, is no key
abbrev pub same_key : Option String → Option String → Bool
same_key (some k) (some l) = not (l == "") && (k == l)
same_key _ _ = false

-- requests whose key is made of what they are for
module _ {R : Type 0} (key : R → Option String) (owner : R → String) (make : String → String) where
  abbrev pub IsKeyed : R → Type 0
  IsKeyed p = key p ≡ some (make (owner p))

  abbrev pub AtMostOnce : List R → Type 0
  AtMostOnce ps = All IsKeyed ps × ((o : String) → count (λ q. owner q == o) ps ≤ 1)

module _ {R : Type 0} (key : R → Option String) (owner : R → String) (make : String → String)
    (filled : (o : String) → (make o == "") ≡ false) where
  abbrev pub Keyed : R → Type 0
  Keyed = IsKeyed key owner make

  abbrev pub Single : List R → Type 0
  Single = AtMostOnce key owner make

  names_key : (o : String) (p : R) → Keyed p → owner p ≡ o → same_key (key p) (some (make o)) ≡ true
  names_key o p a e =
      subst (λ x. same_key x (some (make o)) ≡ true) (sym (a ∙ ap (λ y. some (make y)) e))
        (rw (filled o) (==_refl (make o)))

  none_before :
      (o : String) (ps : List R)
      → All Keyed ps
      → any (λ q. same_key (key q) (some (make o))) ps ≡ false
      → count (λ q. owner q == o) ps ≡ 0
  none_before o [] k n = refl
  none_before o (p ∷ ps) (a, k) n = elim (Bool-cases (owner p == o)) [
    | inl y ↦ absurd (ground (arith, n, names_key o p a (==_sound (owner p) o y)))
    | inr z ↦ ground (arith, z, n, none_before o ps k)
  ]

  -- one request more, for a key that was not used
  pub carried :
      (p : R) (ps qs : List R)
      → Keyed p
      → (qs ≡ ps) ⊎ ((any (λ q. same_key (key q) (key p)) ps ≡ false) × (qs ≡ p ∷ ps))
      → Single ps
      → Single qs
  carried p ps qs a (inl e) h = subst Single (sym e) h
  carried p ps qs a (inr (n, e)) (k, h) = subst Single (sym e) ((a, k), more)
    where
      more : (o : String) → count (λ q. owner q == o) (p ∷ ps) ≤ 1
      more o =
          if_split (λ (x : ℕ). x + count (λ q. owner q == o) ps ≤ 1) (owner p == o) _ _
            (λ same.
              let key_of : key p ≡ some (make o) =
                a ∙ ap (λ y. some (make y)) (==_sound (owner p) o same) in
              let none : count (λ q. owner q == o) ps ≡ 0 =
                none_before o ps k
                  (subst (λ x. any (λ q. same_key (key q) x) ps ≡ false) key_of n) in
              omega (arith, none))
            (λ _. let before : count (λ q. owner q == o) ps ≤ 1 = h o in omega (arith, before))

-- the keys of the client
abbrev pub charge_key : String → String
charge_key o = append "charge-" o

abbrev pub refund_key : String → String
refund_key i = append "refund-" i

not_empty : (s : String) → (s ≡ "" → ⊥) → (s == "") ≡ false
not_empty s n = elim (Bool-cases (s == "")) [ inl y ↦ absurd (n (==_sound s "" y)) | inr z ↦ z ]

filled_key : (c : Char) (s o : String) → (append (cons c s) o == "") ≡ false
filled_key c s o = not_empty (append (cons c s) o) (λ q.
    let p : append (cons c s) o ≡ cons c (append s o) = append_clauses.cons c s o in cc (p, q))

pub charge_key-filled : (o : String) → (charge_key o == "") ≡ false
charge_key-filled o = filled_key "c" "harge-" o

pub refund_key-filled : (i : String) → (refund_key i == "") ≡ false
refund_key-filled i = filled_key "r" "efund-" i

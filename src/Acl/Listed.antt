-- ===== src/Acl/Listed.antt =====
-- The networks that an access list is built of, as the texts of the configuration.
use oxi_gate.Base.{
  ◌≡◌, ◌≢◌, refl, sym, ◌∙◌, ap, subst, inl, inr, Text, true, List, [], ◌∷◌, In, Result, ok, ◌>>=◌,
  bind-eq-ok, collect, Option, arith,
}
use oxi_gate.Acl.{Acl, IpNet, contains, is_allowed, parse_cidr, from_config}
use oxi_gate.Acl.Decision.{is_allowed_iff}
use oxi_gate.Net.{IpAddr}

pub collect-In {ℓ} :
    {E : Type ℓ} {A B : Type 0} (f : A → Result E B) (xs : List A) (ys : List B) (y : B)
    → collect f xs ≡ ok ys
    → In y ys
    → (x : A) × In x xs × (f x ≡ ok y)
collect-In f [] [] y e m = absurd m
collect-In f [] (z ∷ zs) y e m = absurd (cc)
collect-In f (x ∷ xs) ys y e m =
    let (z, parsed, e1) = bind-eq-ok (f x) (λ y. collect f xs >>= λ ys. ok (y ∷ ys)) e in
    let (zs, rest, e2) = bind-eq-ok (collect f xs) (λ ys. ok (z ∷ ys)) e1 in
    let same : z ∷ zs ≡ ys = cc in
    elim (subst (In y) (sym same) m) [
      | inl here ↦ (x, inl refl, parsed ∙ ap ok (sym here))
      | inr there ↦ let (w, inside, read) = collect-In f xs zs y rest there in (w, inr inside, read)
    ]

pub In-collect {ℓ} :
    {E : Type ℓ} {A B : Type 0} (f : A → Result E B) (xs : List A) (ys : List B) (x : A) (y : B)
    → collect f xs ≡ ok ys
    → In x xs
    → f x ≡ ok y
    → In y ys
In-collect f [] ys x y e m g = absurd m
In-collect f (z ∷ xs) ys x y e m g =
    let (w, parsed, e1) = bind-eq-ok (f z) (λ y. collect f xs >>= λ ys. ok (y ∷ ys)) e in
    let (ws, rest, e2) = bind-eq-ok (collect f xs) (λ ys. ok (w ∷ ys)) e1 in
    let same : w ∷ ws ≡ ys = cc in
    subst (In y) same (elim m [
      | inl here ↦ inl (let both : ok y ≡ ok w = sym g ∙ ap f here ∙ parsed in cc)
      | inr there ↦ inr (In-collect f xs ws x y rest there g)
    ])

module _ (parse_ip : Text → Option IpAddr) where
  -- A network of the list holds the address.
  abbrev pub IsListed : List Text → IpAddr → Type 0
  IsListed cidrs ip =
      (s : Text) × In s cidrs
      × ((net : IpNet) × (parse_cidr parse_ip s ≡ ok net) × (contains net ip ≡ true))

  collect-nil : (cidrs : List Text) → collect (parse_cidr parse_ip) cidrs ≡ ok [] → cidrs ≡ []
  collect-nil [] e = refl
  collect-nil (s ∷ cidrs) e =
      let (z, parsed, e1) =
        bind-eq-ok (parse_cidr parse_ip s)
          (λ y. collect (parse_cidr parse_ip) cidrs >>= λ ys. ok (y ∷ ys)) e in
      let (zs, rest, e2) =
        bind-eq-ok (collect (parse_cidr parse_ip) cidrs) (λ ys. ok (z ∷ ys)) e1 in
      absurd (cc)

  pub from_config-IsListed :
      (cidrs : List Text) (acl : Acl) (ip : IpAddr)
      → from_config parse_ip cidrs [] ≡ ok acl
      → cidrs ≢ []
      → is_allowed acl ip ≡ true
      → IsListed cidrs ip
  unfolding from_config
  from_config-IsListed cidrs acl ip e h allowed =
      let (nets, read, made) =
        bind-eq-ok (collect (parse_cidr parse_ip) cidrs) (λ a. ok (record { allow = a; deny = [] }))
          e in
      let same : acl.allow ≡ nets = ground arith in
      elim ((is_allowed_iff acl ip).0 allowed).1 [
        | inl nothing ↦ absurd (h (collect-nil cidrs (read ∙ ap ok (sym same ∙ nothing))))
        | inr (net, listed, holds) ↦
            let (s, inside, parsed) =
              collect-In (parse_cidr parse_ip) cidrs nets net read (subst (In net) same listed) in
            (s, inside, (net, parsed, holds))
      ]

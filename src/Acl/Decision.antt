-- ===== src/Acl/Decision.antt =====
-- Which addresses an access list lets through.
use oxi_gate.Base.{
  ◌≡◌, refl, ◌↔◌, ◌⊎◌, inl, inr, Bool, true, false, if◌then◌else◌, List, [], ◌∷◌, is_empty, any, In,
  any_iff_true, any_of_In,
}
use oxi_gate.Net.{IpAddr}
use oxi_gate.Acl.{IpNet, Acl, contains, is_allowed}

abbrev pub IsIn : IpAddr → List IpNet → Type 0
IsIn ip nets = (n : IpNet) × In n nets × (contains n ip ≡ true)

any_net_iff :
    (ip : IpAddr) (nets : List IpNet) → (any (λ n. contains n ip) nets ≡ true) ↔ IsIn ip nets
any_net_iff ip nets =
    (any_iff_true (λ n. contains n ip) nets, λ h. any_of_In (λ n. contains n ip) h.0 nets h.1 h.2)

clash : {b : Bool} → b ≡ true → b ≡ false → ⊥
clash p q = cc

-- An address passes exactly when no denied network holds it and either there is no allow list or an
-- allowed network holds it: a denial wins over a permission.
pub is_allowed_iff :
    (acl : Acl) (ip : IpAddr)
    → (is_allowed acl ip ≡ true) ↔ ((¬ IsIn ip acl.deny) × ((acl.allow ≡ []) ⊎ IsIn ip acl.allow))
unfolding is_allowed
is_allowed_iff acl ip = decide acl.allow (any (λ n. contains n ip) acl.deny) refl
  where
    decide :
        (allow : List IpNet) (denied : Bool)
        → any (λ n. contains n ip) acl.deny ≡ denied
        → ((if denied
              then false
              else if is_empty allow
              then true
              else any (λ n. contains n ip) allow)
            ≡ true)
          ↔ ((¬ IsIn ip acl.deny) × ((allow ≡ []) ⊎ IsIn ip allow))
    decide allow true e = (λ h. cc, λ h. absurd (h.0 ((any_net_iff ip acl.deny).0 e)))
    decide [] false e = (λ h. (λ d. clash ((any_net_iff ip acl.deny).1 d) e, inl refl), λ h. refl)
    decide (n ∷ ns) false e = (
      λ h. (λ d. clash ((any_net_iff ip acl.deny).1 d) e, inr ((any_net_iff ip (n ∷ ns)).0 h)),
      λ h. elim h.1 [ inl q ↦ absurd (cc) | inr m ↦ (any_net_iff ip (n ∷ ns)).1 m ],
    )

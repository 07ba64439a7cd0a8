-- ===== src/Base/Vec3.antt =====
-- `float[3]`: linear x, linear y and angular z of a velocity; x, y and z of a vector.
pub record Vec3 {ℓ} (A : Type ℓ) : Type ℓ where
  pub v0 : A
  pub v1 : A
  pub v2 : A

module _ {ℓ} {A : Type ℓ} where
  abbrev pub vec3 : A → A → A → Vec3 A
  vec3 a b c = record { v0 = a; v1 = b; v2 = c }

  -- The loop over the three components.
  abbrev pub zip_vec3 : (A → A → A) → Vec3 A → Vec3 A → Vec3 A
  zip_vec3 g a b = vec3 (g a.v0 b.v0) (g a.v1 b.v1) (g a.v2 b.v2)

abbrev pub map_vec3 {ℓ κ} : {A : Type ℓ} {B : Type κ} → (A → B) → Vec3 A → Vec3 B
map_vec3 g a = vec3 (g a.v0) (g a.v1) (g a.v2)

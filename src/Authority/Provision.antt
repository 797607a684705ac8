-- ===== src/Authority/Provision.antt =====
-- Where operator keys are written, and which executables are trusted.
use jvc_core.Base.{
  ◌≡◌, refl, ◌⊎◌, inl, inr, Bool, false, not, ◌&&◌, Option, none, some, List, Text, Bytes, Dict,
  get, put, get-put, ◌==◌, eq_iff, upper, length, is_some, arith, Bool-cases,
}
use jvc_core.Exec.{ok}
use jvc_core.Boundaries.Targets.{Resolve}
use jvc_core.Authority.Keys.{
  Pin, is_inside, generate_operator_key, rotate_operator_key, executable_key, check_content,
  check_pin, resolve_trusted_executable,
}

module _ (resolve : Resolve) where
  -- The file is as it was; or it is the key's file, outside the governed roots.
  abbrev pub Provisioned : Text → List Text → Dict Bytes → Dict Bytes → Text → Type 0
  Provisioned path forbidden files files' q =
      (get q files' ≡ get q files) ⊎ ((resolve path ≡ q) × (is_inside resolve q forbidden ≡ false))

  put-Provisioned :
      (path : Text) (forbidden : List Text) (key : Bytes) (files : Dict Bytes) (q : Text)
      → is_inside resolve (resolve path) forbidden ≡ false
      → Provisioned path forbidden files (put (resolve path) key files) q
  put-Provisioned path forbidden key files q k = elim (Bool-cases (resolve path == q)) [
    | inl e ↦ let same = (eq_iff (resolve path) q).0 e in inr (same, rw same at k)
    | inr e ↦ inl (rw get-put (rw e refl))
  ]

  rotate_operator_key-Provisioned :
      (path : Text) (forbidden : List Text) (key : Bytes) (persists : Bool) (files : Dict Bytes)
      (q : Text)
      → Provisioned path forbidden files
          (rotate_operator_key resolve path forbidden key persists files).1
          q
  unfolding rotate_operator_key
  rotate_operator_key-Provisioned path forbidden key persists files q =
      elim (Bool-cases (is_some (get (resolve path) files))) [
        | inl there ↦ elim (Bool-cases (is_inside resolve (resolve path) forbidden)) [
          | inl inside ↦ rw there (rw inside (inl refl))
          | inr outside ↦ elim (Bool-cases persists) [
            | inl p ↦
                rw there (rw outside (rw p (put-Provisioned path forbidden key files q outside)))
            | inr p ↦ rw there (rw outside (rw p (inl refl)))
          ]
        ]
        | inr gone ↦ rw gone (inl refl)
      ]

  generate_operator_key-Provisioned :
      (path : Text) (forbidden : List Text) (overwrite : Bool) (key : Bytes) (persists : Bool)
      (files : Dict Bytes) (q : Text)
      → Provisioned path forbidden files
          (generate_operator_key resolve path forbidden overwrite key persists files).1
          q
  unfolding generate_operator_key
  generate_operator_key-Provisioned path forbidden overwrite key persists files q =
      elim (Bool-cases (is_inside resolve (resolve path) forbidden)) [
        | inl inside ↦ rw inside (inl refl)
        | inr outside ↦ elim (Bool-cases (is_some (get (resolve path) files) && not overwrite)) [
          | inl there ↦ rw outside (rw there (inl refl))
          | inr free ↦ elim (Bool-cases persists) [
            | inl p ↦
                rw outside (rw free (rw p (put-Provisioned path forbidden key files q outside)))
            | inr p ↦
                rw outside (rw free (rw p (put-Provisioned path forbidden key files q outside)))
          ]
        ]
      ]

  -- Neither the first provisioning of a key nor its rotation changes any file but the key's own, and
  -- that only where it lies outside every governed root.
  pub keys-Provisioned :
      (path : Text) (forbidden : List Text) (overwrite : Bool) (key : Bytes) (persists : Bool)
      (files : Dict Bytes) (q : Text)
      → Provisioned path forbidden files
          (generate_operator_key resolve path forbidden overwrite key persists files).1
          q
        × Provisioned path forbidden files
            (rotate_operator_key resolve path forbidden key persists files).1
            q
  keys-Provisioned path forbidden overwrite key persists files q = (
    generate_operator_key-Provisioned path forbidden overwrite key persists files q,
    rotate_operator_key-Provisioned path forbidden key persists files q,
  )

  -- A file whose content has the hash that the configuration pins for the name.
  pub record IsTrusted (hexdigest : Bytes → Text) (files : Dict Bytes) (name : Text)
      (trusted : Dict Pin) (path : Text) : Type 0 where
    pub pin : Pin
    pub content : Bytes
    pub pinned : get (executable_key name) trusted ≡ some pin
    pub located : resolve pin.path ≡ path
    pub stored : get path files ≡ some content
    pub hashed : upper (hexdigest content) ≡ upper pin.sha256
    pub complete : length (upper pin.sha256) ≡ 64

  check_content-ok :
      (hexdigest : Bytes → Text) (path expected : Text) (o : Option Bytes) (r : Text)
      → check_content resolve hexdigest path expected o ≡ ok r
      → (b : Bytes) × (o ≡ some b)
        × (path ≡ r)
        × (upper (hexdigest b) ≡ expected)
        × (length expected ≡ 64)
  check_content-ok hexdigest path expected none r e = cc
  check_content-ok hexdigest path expected (some b) r e =
      (b, refl, ground arith, ground (arith, eq_iff (upper (hexdigest b)) expected), ground arith)

  check_pin-IsTrusted :
      (hexdigest : Bytes → Text) (files : Dict Bytes) (name : Text) (trusted : Dict Pin)
      (o : Option Pin) (path : Text)
      → get (executable_key name) trusted ≡ o
      → check_pin resolve hexdigest files o ≡ ok path
      → IsTrusted hexdigest files name trusted path
  check_pin-IsTrusted hexdigest files name trusted none path g e = cc
  check_pin-IsTrusted hexdigest files name trusted (some pin) path g e =
      let (b, there, same, hashed, complete) =
        check_content-ok hexdigest (resolve pin.path) (upper pin.sha256) _ path e in
      record {
        pin = pin;
        content = b;
        pinned = g;
        located = same;
        stored = rw same at there;
        hashed = hashed;
        complete = complete;
      }

  -- An executable that is resolved has the path that the configuration gives its name and a content
  -- of the pinned hash, which has all 64 digits.
  pub resolve_trusted_executable-IsTrusted :
      (hexdigest : Bytes → Text) (files : Dict Bytes) (name : Text) (trusted : Dict Pin)
      (path : Text)
      → resolve_trusted_executable resolve hexdigest files name trusted ≡ ok path
      → IsTrusted hexdigest files name trusted path
  unfolding resolve_trusted_executable
  resolve_trusted_executable-IsTrusted hexdigest files name trusted path e =
      check_pin-IsTrusted hexdigest files name trusted _ path refl e

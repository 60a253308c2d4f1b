-- ===== src/MessageService/ActiveKey.antt =====
-- MessageService.cpp, `getActiveKey`: which key a valid answer stands for, and what a refusal leaves
-- in the cache.
use encrypted_transmission_d.Prelude.{
  String, Bool, true, false, ℤ, pos, ◌≡◌, ◌⊎◌, refl, sym, ap, subst, inl, inr, int_eq, int_eq_iff,
  Bool-cases, if◌then◌else◌,
}
use encrypted_transmission_d.Cache.{Node, shm_read}
use encrypted_transmission_d.Database.Effect.{Collation}
use encrypted_transmission_d.Outside.{Outside, World}
use encrypted_transmission_d.Outside.Laws.{View, IsLawful}
use encrypted_transmission_d.Outside.Rules.{Post, tables_of}
use encrypted_transmission_d.KeyStore.{check_sec_key}
use encrypted_transmission_d.KeyStore.Check.{HasLive, check_sec_key-HasLive}
use encrypted_transmission_d.MessageService.Keys.{
  ActiveKeyResult, is_cached, cache_read, keep_or_disable, confirm_cached, confirm_missing,
  active_key_of, get_active_key,
}

module _ {E H : Type 0} (o : Outside E H) (c : Collation) (v : View E) (l : IsLawful o c v)
    (sender receiver : String) (key : ℤ) where
  -- A valid answer is the key in the slot of the pair, whose number and mark are right, and whose
  -- row is live; the cache is left as it is.
  abbrev pub IsUsable : Node → World E H → ActiveKeyResult → World E H → Type 0
  IsUsable node w r w' =
      (r.found ≡ true)
      × (r.key_id ≡ key)
      × (r.base64_key ≡ node.seckey)
      × (is_cached key node ≡ true)
      × (node.status ≡ pos 1)
      × (w'.slots ≡ w.slots)
      × HasLive c (v.now w.engine) sender receiver key (tables_of v w).keys (tables_of v w').keys

  kept-IsUsable :
      (node : Node) (w w' : World E H) (b : Bool)
      → is_cached key node ≡ true
      → node.status ≡ pos 1
      → w'.slots ≡ w.slots
      → (b ≡ true
          → HasLive c
              (v.now w.engine)
              sender
              receiver
              key
              (tables_of v w).keys
              (tables_of v w').keys)
      → Post
          (keep_or_disable o sender receiver key node b)
          w'
          (λ r w''. r.valid ≡ true → IsUsable node w r w'')
  unfolding keep_or_disable
  kept-IsUsable node w w' true cached status same live h =
      (refl, refl, refl, cached, status, same, live refl)
  kept-IsUsable node w w' false cached status same live h = absurd (cc)

  confirm_cached-IsUsable :
      (node : Node) (w : World E H)
      → v.in_transaction w.engine ≡ false
      → is_cached key node ≡ true
      → node.status ≡ pos 1
      → Post
          (confirm_cached o sender receiver key node)
          w
          (λ r w'. r.valid ≡ true → IsUsable node w r w')
  unfolding confirm_cached
  confirm_cached-IsUsable node w idle cached status =
      kept-IsUsable node w (check_sec_key o sender receiver key w).1
        (check_sec_key o sender receiver key w).0 cached status
        (ap (λ (x : World E H). x.slots)
          (check_sec_key-HasLive o c v l w idle sender receiver key).0.process)
        (check_sec_key-HasLive o c v l w idle sender receiver key).1

  confirm_missing-invalid :
      (w : World E H) → Post (confirm_missing o sender receiver key) w (λ r w'. r.valid ≡ false)
  unfolding confirm_missing
  confirm_missing-invalid w = elim (Bool-cases (check_sec_key o sender receiver key w).0) [
    | inl e ↦ rw e refl
    | inr e ↦ rw e refl
  ]

  asks :
      (node : Node)
      → is_cached key node ≡ true
      → int_eq node.status (pos 1) ≡ true
      → active_key_of o sender receiver key node ≡ confirm_cached o sender receiver key node
  unfolding active_key_of
  asks node hit on = rw hit (rw on refl)

  -- Where the segment cannot be attached, no key is valid.
  detached :
      (w : World E H)
      → Post
          (active_key_of o sender receiver key (shm_read false sender receiver w.slots))
          w
          (λ r w'. r.valid ≡ false)
  unfolding active_key_of shm_read
  detached w = confirm_missing-invalid w

  active_key_of-IsUsable :
      (node : Node) (w : World E H)
      → v.in_transaction w.engine ≡ false
      → Post
          (active_key_of o sender receiver key node)
          w
          (λ r w'. r.valid ≡ true → IsUsable node w r w')
  unfolding active_key_of
  active_key_of-IsUsable node w idle = elim (Bool-cases (is_cached key node)) [
    | inr miss ↦ rw (miss, active_key_of) (λ h. absurd (let e = confirm_missing-invalid w in cc))
    | inl hit ↦ elim (Bool-cases (int_eq node.status (pos 1))) [
      | inr off ↦ rw (hit, active_key_of) (rw (off, if◌then◌else◌) (λ h. absurd (cc)))
      | inl on ↦
          subst (λ m. Post m w (λ r w'. r.valid ≡ true → IsUsable node w r w'))
            (sym (asks node hit on))
            (confirm_cached-IsUsable node w idle hit ((int_eq_iff node.status (pos 1)).0 on))
    ]
  ]

  pub get_active_key-IsUsable :
      (w : World E H)
      → v.in_transaction w.engine ≡ false
      → Post
          (get_active_key o sender receiver key)
          w
          (λ r w'. r.valid ≡ true → IsUsable (shm_read true sender receiver w.slots) w r w')
  unfolding get_active_key cache_read
  get_active_key-IsUsable w idle = go (o.attach w.host).0
    where
      read : World E H
      read = record w { host = (o.attach w.host).1 }

      go :
          (attached : Bool)
          → Post
              (active_key_of o sender receiver key (shm_read attached sender receiver w.slots))
              read
              (λ r w'. r.valid ≡ true → IsUsable (shm_read true sender receiver w.slots) w r w')
      go true = active_key_of-IsUsable (shm_read true sender receiver w.slots) read idle
      go false = λ h. absurd (let e = detached read in cc)

  -- With no transaction open, the answer of `getActiveKey` is not valid, or it is the key that the
  -- cache holds for the pair under the number asked for, marked usable there; and then the database
  -- holds a row of that number for the pair that is active and not yet due, which the call leaves so, as it
  -- does the cache.
  pub get_active_key_confirms :
      (w : World E H)
      → v.in_transaction w.engine ≡ false
      → ((get_active_key o sender receiver key w).0.valid ≡ false)
        ⊎ IsUsable
            (shm_read true sender receiver w.slots)
            w
            (get_active_key o sender receiver key w).0
            (get_active_key o sender receiver key w).1
  get_active_key_confirms w idle =
      elim (Bool-cases (get_active_key o sender receiver key w).0.valid) [
        | inl e ↦ inr (get_active_key-IsUsable w idle e)
        | inr e ↦ inl e
      ]

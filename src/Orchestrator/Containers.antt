-- ===== src/Orchestrator/Containers.antt =====
-- internal/orchestrator/lazy.go: which containers a call leaves behind.
use blitzy_localgcp.Base.{
  ◌≡◌, refl, List, [], ◌∷◌, ◌++◌, Option, none, some, Bool, true, false, not, ◌&&◌, ◌||◌,
  Bool-cases, Result-cases, Option-cases, subst, inl, inr, Str, str_eq, Result, ok, err, arith,
}
use blitzy_localgcp.Orchestrator.{
  LazyService, ContainerRuntime, Call, create, start, stop, remove, wait_for_ready, reuse,
  start_container, new_container, ensure_container,
}

-- Whether a container is there after the calls, which has been there before them or not. A removal
-- that fails leaves it.
unfoldable pub is_left : ContainerRuntime → Str → Bool → List Call → Bool
is_left runtime id before [] = before
is_left runtime id before (create k ∷ calls) = is_left runtime id (str_eq k id || before) calls
is_left runtime id before (start k ∷ calls) = is_left runtime id before calls
is_left runtime id before (stop k ∷ calls) = is_left runtime id before calls
is_left runtime id before (remove k ∷ calls) =
    is_left runtime id (not (str_eq k id && runtime.removes id) && before) calls

-- What a call has to leave: after a success a service with the address of its container, and no
-- other container that was created; after a failure no service, and no container that was created
-- and that the runtime can remove.
unfoldable pub Settled : ContainerRuntime → Result Str Str → LazyService → List Call → Type 0
unfolding is_left
Settled runtime (ok addr) t calls =
    (t.started ≡ true)
    × (t.host_addr ≡ addr)
    × (runtime.host_port t.container_id t.config.internal_port ≡ ok addr)
    × ((id : Str) → (is_left runtime id false calls && not (str_eq t.container_id id)) ≡ false)
Settled runtime (err e) t calls =
    (t.started ≡ false)
    × ((id : Str) → (is_left runtime id false calls && runtime.removes id) ≡ false)

is_left-append :
    (runtime : ContainerRuntime) (id : Str) (before : Bool) (xs ys : List Call)
    → is_left runtime id before (xs ++ ys) ≡ is_left runtime id (is_left runtime id before xs) ys
unfolding is_left
is_left-append runtime id before [] ys = refl
is_left-append runtime id before (create k ∷ xs) ys =
    is_left-append runtime id (str_eq k id || before) xs ys
is_left-append runtime id before (start k ∷ xs) ys = is_left-append runtime id before xs ys
is_left-append runtime id before (stop k ∷ xs) ys = is_left-append runtime id before xs ys
is_left-append runtime id before (remove k ∷ xs) ys =
    is_left-append runtime id (not (str_eq k id && runtime.removes id) && before) xs ys

-- Calls that leave nothing may stand before the others.
Settled-append :
    (runtime : ContainerRuntime) (result : Result Str Str) (t : LazyService) (xs ys : List Call)
    → ((id : Str) → is_left runtime id false xs ≡ false)
    → Settled runtime result t ys
    → Settled runtime result t (xs ++ ys)
unfolding Settled
Settled-append runtime (ok addr) t xs ys quiet (on, same, at, left) =
    (on, same, at, λ id. rw (is_left-append runtime id false xs ys, quiet id) (left id))
Settled-append runtime (err e) t xs ys quiet (off, left) =
    (off, λ id. rw (is_left-append runtime id false xs ys, quiet id) (left id))

module _ (runtime : ContainerRuntime) where
  start_container-Settled :
      (s : LazyService) (id : Str)
      → s.started ≡ false
      → s.container_id ≡ id
      → let (result, t, calls) = start_container runtime s id in
        Settled runtime result t (create id ∷ calls)
  unfolding Settled is_left start_container
  start_container-Settled s id off same = elim (Result-cases (runtime.start id)) [
    | inr (e, f) ↦ rw (start_container, f) (off, λ k. ground arith)
    | inl (u, f) ↦ elim (Result-cases (runtime.host_port id s.config.internal_port)) [
      | inr (e, g) ↦ rw (start_container, f, g) (off, λ k. ground arith)
      | inl (addr, g) ↦ elim (Result-cases (wait_for_ready runtime addr)) [
        | inr (e, h) ↦ rw (start_container, f, g, h) (off, λ k. ground arith)
        | inl (v, h) ↦
            rw (start_container, f, g, h) (refl, refl, rw same g, λ k. rw same (ground arith))
      ]
    ]
  ]

  new_container-Settled :
      (s : LazyService)
      → s.started ≡ false
      → let (result, t, calls) = new_container runtime s in Settled runtime result t calls
  unfolding Settled is_left new_container
  new_container-Settled s off = elim (Result-cases (runtime.pull s.config.image)) [
    | inr (e, f) ↦ rw (new_container, f) (off, λ k. refl)
    | inl (u, f) ↦ elim (Result-cases (runtime.create s.config)) [
      | inr (e, g) ↦ rw (new_container, f, g) (off, λ k. refl)
      | inl (id, g) ↦
          rw (new_container, f, g)
            (start_container-Settled (record s { container_id = id }) id off refl)
    ]
  ]

-- A container of an earlier session is used, or the calls leave nothing.
unfoldable Reused : ContainerRuntime → Option LazyService → List Call → Type 0
Reused runtime (some t) calls = Settled runtime (ok t.host_addr) t calls
Reused runtime none calls = (id : Str) → is_left runtime id false calls ≡ false

reuse-Reused :
    (runtime : ContainerRuntime) (s : LazyService)
    → Reused runtime (reuse runtime s).0 (reuse runtime s).1
unfolding Settled is_left reuse Reused
reuse-Reused runtime s = elim (Result-cases (runtime.find_existing s.config.name)) [
  | inr (e, f) ↦ rw (reuse, f) (λ k. refl)
  | inl ((id, running), f) ↦ elim (Bool-cases (str_eq id [])) [
    | inl g ↦ rw (reuse, f, g) (λ k. refl)
    | inr g ↦ elim (Bool-cases running) [
      | inr h ↦ rw (reuse, f, g, h) (λ k. ground arith)
      | inl h ↦ elim (Result-cases (runtime.host_port id s.config.internal_port)) [
        | inr (e, p) ↦ rw (reuse, f, g, h, p) (λ k. ground arith)
        | inl (addr, p) ↦ rw (reuse, f, g, h, p) (refl, refl, p, λ k. refl)
      ]
    ]
  ]
]

-- The first connection of a service that has no container: if it gets an address, the service is
-- started, has this address, which the runtime gives for its container, and no other container was
-- created and left; if it gets an error, the service is not started, and a container that was
-- created is left only if its removal failed.
pub ensure_container-Settled :
    (runtime : ContainerRuntime) (s : LazyService)
    → s.started ≡ false
    → let (result, t, calls) = ensure_container runtime s in Settled runtime result t calls
unfolding ensure_container Reused
ensure_container-Settled runtime s off =
    let made = new_container-Settled runtime s off in
    elim (Option-cases (reuse runtime s).0) [
      | inl e ↦
          let quiet =
            subst (λ o. Reused runtime o (reuse runtime s).1) e (reuse-Reused runtime s) in
          rw (ensure_container, off, e)
            (Settled-append runtime (new_container runtime s).0 (new_container runtime s).1
              (reuse runtime s).1 (new_container runtime s).2 quiet made)
      | inr (t, e) ↦
          let used = subst (λ o. Reused runtime o (reuse runtime s).1) e (reuse-Reused runtime s) in
          rw (ensure_container, off, e) used
    ]

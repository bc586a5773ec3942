-- ===== src/User/Closing.antt =====
-- ape/user.rs: a whole session, with its clean-up.
use ape.Base.{ℕ, zero, suc, ◌+◌, ◌≤◌, ◌<◌, ◌≡◌, refl, ap, ◌∙◌, some, ok, usize_max}
use ape.Memory.State.{Platform}
use ape.Memory.Layout.{IsLaidOut}
use ape.User.{
  SharedPagePool, Kernel, new, clear_slot, release_from, release_all, user_shared_page_pool_slots,
}
use ape.User.Copy.{UserAccessSession, bytes_at}
use ape.User.Sessions.{after_cleanup, finish_session, with_user_session, manager_copy_from_user}
use ape.User.Pool.{IsPool, new-IsPool}
use ape.User.Acquire.{IsWilling, clear_slot_lem}
use ape.User.Reading.{user_byte, Allows, copy_from_user_reads}

release_step :
    (kernel : Kernel) (fuel slot : ℕ) (pool after last : SharedPagePool)
    → clear_slot kernel pool slot ≡ (ok tt, after)
    → release_from kernel fuel (slot + 1) after ≡ (ok tt, last)
    → release_from kernel (suc fuel) slot pool ≡ (ok tt, last)
unfolding release_from
release_step kernel fuel slot pool after last cleared rest =
    let to_after : (clear_slot kernel pool slot).1 ≡ after = ap (λ r. r.1) cleared in
    rw (release_from, cleared) (ap (release_from kernel fuel (slot + 1)) to_after ∙ rest)

release_from_ok :
    (kernel : Kernel) (fuel slot : ℕ) (pool : SharedPagePool)
    → IsWilling kernel
    → IsPool pool
    → (last : SharedPagePool) × (release_from kernel fuel slot pool ≡ (ok tt, last))
unfolding release_from
release_from_ok kernel zero slot pool willing good = (pool, refl)
release_from_ok kernel (suc fuel) slot pool willing good =
    let (after, cleared, still) = clear_slot_lem kernel pool slot willing good in
    let (last, rest) = release_from_ok kernel fuel (slot + 1) after willing still in
    (last, release_step kernel fuel slot pool after last cleared rest)

-- A session whose body succeeds with a well-formed pool succeeds.
finish_session_ok {ℓ} :
    {A : Type ℓ} (kernel : Kernel) (v : A) (s : UserAccessSession)
    → IsWilling kernel
    → IsPool s.pool
    → (last : SharedPagePool) × (finish_session kernel (some (ok v, s))
        ≡ some (ok v, record s { pool = last }))
unfolding finish_session after_cleanup release_all
finish_session_ok kernel v s willing good =
    let (last, done) = release_from_ok kernel user_shared_page_pool_slots 0 s.pool willing good in
    (last, ap (λ r. some (after_cleanup (ok v) s r)) done)

-- A session for a read of addresses that the maps of a process hold and allow to read always succeeds,
-- its clean-up included: it gives the bytes of the frames there, across as many maps as the range has,
-- and nothing but the pool changes. The kernel shows and unmaps every frame, the maps are laid out,
-- and the range does not start at 0 and ends within the addresses.
pub manager_copy_from_user_reads :
    (kernel : Kernel) (p : Platform) (pid : ℕ) (s : UserAccessSession) (user_src count : ℕ)
    → IsWilling kernel
    → IsLaidOut 0 s.mm.memory_maps
    → 0 < user_src
    → user_src + count ≤ usize_max
    → ((k : ℕ) → k < count → Allows p.perm_read s (user_src + k))
    → (pool : SharedPagePool) × (manager_copy_from_user kernel p pid s user_src count
        ≡ some (ok (bytes_at (user_byte s) user_src count), record s { pool = pool }))
unfolding manager_copy_from_user with_user_session
manager_copy_from_user_reads kernel p pid s user_src count willing laid real small all =
    let (pool, good, body) =
      copy_from_user_reads kernel p pid (record s { pool = new }) user_src count willing laid
        new-IsPool real small all in
    let (last, done) =
      finish_session_ok kernel (bytes_at (user_byte s) user_src count) (record s { pool = pool })
        willing good in
    (last, ap (finish_session kernel) body ∙ done)

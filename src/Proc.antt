-- ===== src/Proc.antt =====
-- proc.c: the process table. `none` is a panic. Every operation is one step on the table: it holds
-- `ptable.lock`, but for the part of `exit` that closes files and for the changes of priority.
-- `fork`, `exit` and `wait` call memory and file operations that are a parameter here (`MemOps`,
-- `FileOps`).
pub mod Life
pub mod Sched
pub mod Scan
pub mod Tree
pub mod Birth
pub mod Fork
pub mod Exit
pub mod Wait
pub mod System
pub mod Keep
pub mod Preserve
pub mod Safety
pub mod Queue
pub mod Signal
mod Tests
use cpsc.Prelude.{
  ℕ, zero, suc, ◌+◌, ◌-◌, Bool, true, false, ◌&&◌, ◌||◌, not, Option, none, some, List, [], ◌∷◌,
  ◌==◌, if◌then◌else◌, update, take, ◌>>=◌,
}
use cpsc.Prelude.Int.{ℤ, pos, minus_one}

abbrev pub nproc : ℕ
nproc = 64

abbrev pub nofile : ℕ
nofile = 16

pub data State : Type 0 where
  unused embryo sleeping runnable running zombie : State

abbrev pub same_state : State → State → Bool
same_state unused unused = true
same_state embryo embryo = true
same_state sleeping sleeping = true
same_state runnable runnable = true
same_state running running = true
same_state zombie zombie = true
same_state _ _ = false

-- A sleeping channel: a null pointer, a slot of the table, or another kernel address.
pub data Chan : Type 0 where
  null : Chan
  slot : ℕ → Chan
  address : ℕ → Chan

abbrev pub same_chan : Chan → Chan → Bool
same_chan null null = true
same_chan (slot i) (slot j) = i == j
same_chan (address a) (address b) = a == b
same_chan _ _ = false

-- A pointer to a process is the index of its slot; `none` is the null pointer.
abbrev pub Ptr : Type 0
Ptr = Option ℕ

abbrev pub points_to : Ptr → ℕ → Bool
points_to none i = false
points_to (some j) i = j == i

abbrev pub chan_of : Ptr → Chan
chan_of none = null
chan_of (some i) = slot i

-- The saved user registers: `eax`, and the others by their index.
pub record Trapframe : Type 0 where
  pub eax : ℕ
  pub others : ℕ → ℕ

-- The registers that `swtch` saves.
pub record Context : Type 0 where
  pub edi : ℕ
  pub esi : ℕ
  pub ebx : ℕ
  pub ebp : ℕ
  pub eip : ℕ

-- `struct proc`. `tf_at` and `context_at` are the pointers, `tf` and `context` what they point to,
-- and `returns_to` the word above the context on the kernel stack. An open file is its address, 0
-- for none, and so is the current directory.
pub record Proc : Type 0 where
  pub sz : ℕ
  pub pgdir : ℕ
  pub kstack : ℕ
  pub state : State
  pub pid : ℕ
  pub parent : Ptr
  pub tf_at : ℕ
  pub tf : Trapframe
  pub context_at : ℕ
  pub context : Context
  pub returns_to : ℕ
  pub chan : Chan
  pub killed : Bool
  pub ofile : ℕ → ℕ
  pub cwd : ℕ
  pub name : List ℕ
  pub priority : ℕ
  pub timecpu : ℕ

abbrev pub Table : Type 0
Table = ℕ → Proc

-- What proc.c calls of kalloc.c and vm.c, over the memory `M`, and two code addresses.
pub record MemOps (M : Type 0) : Type 0 where
  pub kalloc : M → ℕ × M
  pub kfree : ℕ → M → Option M
  pub copyuvm : ℕ → ℕ → M → Option (ℕ × M)
  pub freevm : ℕ → M → Option M
  pub forkret : ℕ
  pub trapret : ℕ

-- What proc.c calls of file.c, fs.c and log.c, over their state `F`. A call that closes returns
-- the channels that it wakes; `drop_dir` is `begin_op(); iput(cwd); end_op()`.
pub record FileOps (F : Type 0) : Type 0 where
  pub filedup : ℕ → F → Option F
  pub fileclose : ℕ → F → Option (F × List Chan)
  pub idup : ℕ → F → F
  pub drop_dir : ℕ → F → Option (F × List Chan)

-- `ptable`, `nextpid`, `initproc`, and `cpu->proc` of each processor. A process number and
-- `nextpid` are the 32-bit patterns of the `int`, which wrap.
pub record Kernel (M F : Type 0) : Type 0 where
  pub table : Table
  pub nextpid : ℕ
  pub initproc : Ptr
  pub cpus : ℕ → Ptr
  pub mem : M
  pub files : F

-- The first slot that passes the test, of the `k` slots from `i` on.
pub scan : (Proc → Bool) → ℕ → ℕ → Table → Option ℕ
scan test zero i t = none
scan test (suc k) i t = let rest = scan test k (suc i) t in if test (t i) then some i else rest

-- `for(i = ...; k rounds; i++) body`.
pub for_each {ℓ} : {S : Type ℓ} → (ℕ → S → S) → ℕ → ℕ → S → S
for_each body zero i s = s
for_each body (suc k) i s = for_each body k (suc i) (body i s)

abbrev pub is_state : State → Proc → Bool
is_state st p = same_state p.state st

-- The body of the loop of `wakeup1`.
abbrev pub wake : Chan → Proc → Proc
wake c p = if is_state sleeping p && same_chan p.chan c then record p { state = runnable } else p

pub wakeup1 : Chan → Table → Table
wakeup1 c t = for_each (λ i t. update t i (wake c (t i))) nproc 0 t

pub wakeup_all : List Chan → Table → Table
wakeup_all [] t = t
wakeup_all (c ∷ cs) t = wakeup_all cs (wakeup1 c t)

-- The process that `kill` found.
abbrev pub marked : Proc → Proc
marked p =
    if is_state sleeping p
    then record p { killed = true; state = runnable }
    else record p { killed = true }

pub kill_found : Option ℕ → Table → ℤ × Table
kill_found none t = (minus_one, t)
kill_found (some i) t = (pos 0, update t i (marked (t i)))

-- `kill`: the first slot with the pid, whatever its state.
pub kill_table : ℕ → Table → ℤ × Table
kill_table pid t = kill_found (scan (λ p. p.pid == pid) nproc 0 t) t

-- The body of the loop of `exit` that passes the children of `cur` to `init`.
abbrev pub adopt : ℕ → Ptr → ℕ → Table → Table
adopt cur init i t =
    if points_to (t i).parent cur
    then (let t' = update t i (record (t i) { parent = init }) in
        if is_state zombie (t i) then wakeup1 (chan_of init) t' else t')
    else t

-- `exit` from "Parent might be sleeping in wait()" to the call of `sched`.
pub exit_table : ℕ → Ptr → Table → Table
exit_table cur init t =
    let t1 = wakeup1 (chan_of (t cur).parent) t in
    let t2 = for_each (adopt cur init) nproc 0 t1 in
    update t2 cur (record (t2 cur) { state = zombie })

-- ===== src/Heap/Facts.antt =====
-- Reads and writes at known addresses.
use uart.Base.{
  ℕ, suc, ◌≤◌, ◌≡◌, ◌≢◌, sym, ap, ◌∙◌, false, Option, none, some, List, ◌++◌, arith, take, drop,
  replicate, length, ◌==◌,
}
use uart.Heap.{
  Holds, Ptr, null, DataInf, Node, Head, Object, node, inf, buf, head, Heap, write, ok, fault,
  load_node, load_inf, load_buf, load_head, store_node, Job, Threadpool, job, pool, load_job,
  load_pool, store_job, store_pool, store_inf, store_head, memcpy, memset, free,
}

pub write_self : (h : Heap) (p : Ptr) (c : Option Object) → write h p c p ≡ c
unfolding write
write_self h p c = ground arith

pub write-other : (h : Heap) (p : Ptr) (c : Option Object) (a : Ptr) → a ≢ p → write h p c a ≡ h a
unfolding write
write-other h p c a ne = ground arith

module _ {h : Heap} {p : Ptr} where
  -- A write leaves the objects at other addresses.
  pub keep :
      {o : Object} (q : Ptr) (c : Option Object) → Holds h p o → p ≢ q → Holds (write h q c) p o
  keep q c e ne = record { at = write-other h q c p ne ∙ e.at }

  pub load_node-ok : {n : Node} → Holds h p (node n) → load_node p h ≡ ok n h
  unfolding load_node
  load_node-ok e = rw e.at

  pub load_inf-ok : {d : DataInf} → Holds h p (inf d) → load_inf p h ≡ ok d h
  unfolding load_inf
  load_inf-ok e = rw e.at

  pub load_buf-ok : {b : List ℕ} → Holds h p (buf b) → load_buf p h ≡ ok b h
  unfolding load_buf
  load_buf-ok e = rw e.at

  pub load_head-ok : {d : Head} → Holds h p (head d) → load_head p h ≡ ok d h
  unfolding load_head
  load_head-ok e = rw e.at

  pub store_node-ok :
      {n : Node} (n' : Node)
      → Holds h p (node n)
      → store_node p n' h ≡ ok tt (write h p (some (node n')))
  unfolding store_node
  store_node-ok n' e = rw (load_node-ok e)

  pub store_inf-ok :
      {d : DataInf} (d' : DataInf)
      → Holds h p (inf d)
      → store_inf p d' h ≡ ok tt (write h p (some (inf d')))
  unfolding store_inf
  store_inf-ok d' e = rw (load_inf-ok e)

  pub store_head-ok :
      {d : Head} (d' : Head)
      → Holds h p (head d)
      → store_head p d' h ≡ ok tt (write h p (some (head d')))
  unfolding store_head
  store_head-ok d' e = rw (load_head-ok e)

  pub load_job-ok : {j : Job} → Holds h p (job j) → load_job p h ≡ ok j h
  unfolding load_job
  load_job-ok e = rw e.at

  pub load_pool-ok : {d : Threadpool} → Holds h p (pool d) → load_pool p h ≡ ok d h
  unfolding load_pool
  load_pool-ok e = rw e.at

  pub store_job-ok :
      {j : Job} (j' : Job)
      → Holds h p (job j)
      → store_job p j' h ≡ ok tt (write h p (some (job j')))
  unfolding store_job
  store_job-ok j' e = rw (load_job-ok e)

  pub store_pool-ok :
      {d : Threadpool} (d' : Threadpool)
      → Holds h p (pool d)
      → store_pool p d' h ≡ ok tt (write h p (some (pool d')))
  unfolding store_pool
  store_pool-ok d' e = rw (load_pool-ok e)

  pub free-ok : {o : Object} → Holds h p o → free p h ≡ ok tt (write h p none)
  unfolding free
  free-ok e = rw e.at

  -- Objects of two kinds lie at two addresses.
  pub apart : {q : Ptr} {o o' : Object} → Holds h p o → Holds h q o' → o ≢ o' → p ≢ q
  apart {q} {o} {o'} e e' ne same =
      let at : some o ≡ some o' = sym e.at ∙ ap h same ∙ e'.at in ne (cc)

module _ {h : Heap} {dest src : Ptr} {d s : List ℕ} (n : ℕ) (es : Holds h src (buf s))
    (ed : Holds h dest (buf d)) where
  pub memcpy-ok :
      n ≤ length s
      → n ≤ length d
      → memcpy dest src n h ≡ ok tt (write h dest (some (buf (take n s ++ drop n d))))
  unfolding memcpy
  memcpy-ok hs hd = rw (load_buf-ok es, load_buf-ok ed) (ground arith)

  pub memcpy-overflow : suc (length d) ≤ n → memcpy dest src n h ≡ fault
  unfolding memcpy
  memcpy-overflow hd = rw (load_buf-ok es, load_buf-ok ed) (ground arith)

pub memset-ok :
    {h : Heap} {p : Ptr} {b : List ℕ} (byte n : ℕ)
    → Holds h p (buf b)
    → n ≤ length b
    → memset p byte n h ≡ ok tt (write h p (some (buf (replicate n byte ++ drop n b))))
unfolding memset
memset-ok byte n e fits = rw (load_buf-ok e) (ground arith)

pub Holds-self : (h : Heap) (p : Ptr) (o : Object) → Holds (write h p (some o)) p o
Holds-self h p o = record { at = write_self h p (some o) }

pub not_null : {p : Ptr} → p ≢ null → (p == null) ≡ false
not_null ne = ground arith

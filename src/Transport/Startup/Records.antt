-- ===== src/Transport/Startup/Records.antt =====
-- A record file is acted on only if it names a child that leads the group to be signalled.
use uber_coder.Prelude.{◌≡◌, ◌≤◌, true, Option, none, some, Text, arith}
use uber_coder.Transport.Startup.{
  Field, IdentityFields, RecordFields, HostProcessIdentity, HostRecord, text_of, identity_of,
  parse_identity, leads_group, is_natural, host_record_of, parse_host_record,
}

identity_of-pid :
    (p : Field) (f : IdentityFields) (i : HostProcessIdentity)
    → identity_of p f ≡ some i
    → 2 ≤ i.pid
identity_of-pid p f i h = ground arith

parse_identity-pid :
    (o : Option IdentityFields) (i : HostProcessIdentity) → parse_identity o ≡ some i → 2 ≤ i.pid
unfolding parse_identity
parse_identity-pid none i h = cc
parse_identity-pid (some f) i h = identity_of-pid f.pid f i h

host_record_of-checked :
    (f : RecordFields) (s a : Option Text) (h c : Option HostProcessIdentity) (r : HostRecord)
    → host_record_of f s a h c ≡ some r
    → (is_natural 1 f.version ≡ true)
      × (leads_group r.child.pid f.child ≡ true)
      × (r.process_group ≡ r.child.pid)
      × (c ≡ some r.child)
      × (h ≡ some r.host)
host_record_of-checked f (some s) (some a) (some h) (some c) r e = ground arith
host_record_of-checked f (some s) (some a) (some h) none r e = cc
host_record_of-checked f (some s) (some a) none c r e = cc
host_record_of-checked f (some s) none h c r e = cc
host_record_of-checked f none a h c r e = cc

-- A record that is taken is of version 1, its host and child are real processes (their ids are above
-- 1), and the group that may be signalled is the child's own, as the file says.
pub parse_host_record-checked :
    (f : RecordFields) (r : HostRecord)
    → parse_host_record (some f) ≡ some r
    → (is_natural 1 f.version ≡ true)
      × (leads_group r.child.pid f.child ≡ true)
      × (r.process_group ≡ r.child.pid)
      × (2 ≤ r.child.pid)
      × (2 ≤ r.host.pid)
unfolding parse_host_record
parse_host_record-checked f r e =
    let (v, g, p, c, h) =
      host_record_of-checked f (text_of f.socket_path) (text_of f.argv_hash) (parse_identity f.host)
        (parse_identity f.child) r e in
    (v, g, p, parse_identity-pid f.child r.child c, parse_identity-pid f.host r.host h)

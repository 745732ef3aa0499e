-- ===== src/Filesys/Latency/Tests.antt =====
-- A disk whose head is over sector 40, at time 1234.
use cs107_nach_os.Common.{◌≡◌, refl, false}
use cs107_nach_os.Filesys.Latency.{Disk, time_to_seek, modulo_diff, in_buffer, compute_latency}

abbrev device : Disk
device = record {
  active = false;
  last_sector = 40;
  buffer_init = 1000;
  num_disk_reads = 0;
  num_disk_writes = 0;
}

latency_runs :
    (compute_latency 1234 100 false device ≡ 17266) × (compute_latency 20000 40 false device ≡ 500)
unfolding compute_latency time_to_seek modulo_diff in_buffer
latency_runs = (refl, refl)
